-- ===== src/LargeObjects.antt =====
-- The lists of large objects (LargeObject with linkLargeObject and unlinkLargeObject of vm/objects.hh,
-- allocLarge's list, evacuateLarge, scavengeLarge and sweepLargeObjects of vm/memorymanager.cc).
pub mod Linked
pub mod Unlink
pub mod Collected
pub mod Enlisted
pub mod Examples
use lambdachine.Common.{
  ℕ, zero, suc, ◌+◌, ◌-◌, ◌≡◌, Bool, true, false, ◌==◌, if◌then◌else◌, write, Option, none, some,
  ◌>>=◌,
}

-- The fields of the objects by their addresses, and the lists' heads. The mark is bit 0 of the flags,
-- the only one that is used.
pub record Objects : Type 0 where
  pub prev : ℕ → Option ℕ
  pub next : ℕ → Option ℕ
  pub mark : ℕ → Bool
  pub payload_size : ℕ → ℕ
  pub large : Option ℕ
  pub evacuated : Option ℕ
  pub scavenged : Option ℕ
  pub freed : Option ℕ

-- `p->prev_ = q` and `p->next_ = q` under the test that p is no null pointer.
abbrev pub set_prev : Objects → Option ℕ → Option ℕ → Objects
set_prev s none q = s
set_prev s (some p) q = record s { prev = write s.prev p q }

abbrev pub set_next : Objects → ℕ → Option ℕ → Objects
set_next s p q = record s { next = write s.next p q }

-- linkLargeObject on the list largeObjects_.
unfoldable pub link_large : Objects → ℕ → Objects
link_large s obj =
    let s1 = record (set_next s obj s.large) { prev = write s.prev obj none } in
    record (set_prev s1 s.large (some obj)) { large = some obj }

-- unlinkLargeObject from the list largeObjects_: the object before it, or the head, goes on where it
-- goes on, and then the object after it is told.
unfoldable pub unlink_next : Objects → ℕ → Objects
unlink_next s obj = elim (s.prev obj) [
  | none ↦ record s { large = s.next obj }
  | some p ↦ set_next s p (s.next obj)
]

unfoldable pub unlink_large : Objects → ℕ → Objects
unfolding unlink_next
unlink_large s obj = let s1 = unlink_next s obj in set_prev s1 (s1.next obj) (s1.prev obj)

-- The end of allocLarge: the new object at the front of the list.
unfoldable pub enlist_large : Objects → ℕ → ℕ → Objects
enlist_large s obj nbytes = record s {
  prev = write s.prev obj none;
  next = write s.next obj s.large;
  mark = write s.mark obj false;
  payload_size = write s.payload_size obj nbytes;
  large = some obj;
}

unfoldable pub evacuate_large : Objects → ℕ → Objects
unfolding unlink_large
evacuate_large s q =
    if s.mark q
    then s
    else let s1 = unlink_large (record s { mark = write s.mark q true }) q in
      record s1 {
        next = write s1.next q s1.evacuated;
        prev = write s1.prev q none;
        evacuated = some q;
      }

-- The loop of scavengeLarge; on fuel, `none` when it is not enough.
unfoldable pub scavenge_large : ℕ → Objects → Option Objects
scavenge_large zero s = none
scavenge_large (suc fuel) s = elim s.evacuated [
  | none ↦ some s
  | some obj ↦ scavenge_large fuel (record s {
    evacuated = s.next obj;
    next = write s.next obj s.scavenged;
    scavenged = some obj;
  })
]

-- The last object of a list.
unfoldable pub last_object : ℕ → Objects → ℕ → Option ℕ
last_object zero s p = none
last_object (suc fuel) s p = elim (s.next p) [ none ↦ some p | some q ↦ last_object fuel s q ]

-- What is left in the list of large objects is freed. The new list of free objects starts with its
-- last object.
unfoldable pub free_large : ℕ → Objects → Option Objects
unfolding last_object
free_large fuel s = elim s.large [
  | none ↦ some s
  | some l ↦ elim s.freed [
    | none ↦ some (record s { freed = some l; large = none })
    | some f ↦ elim (last_object fuel s l) [
      | none ↦ none
      | some p ↦ some (record s {
        prev = write s.prev f (some p);
        next = write s.next p (some f);
        freed = some p;
        large = none;
      })
    ]
  ]
]

-- The scavenged objects linked again, from p on.
unfoldable pub relink_large : ℕ → Objects → Option ℕ → Option Objects
unfolding link_large
relink_large zero s o = none
relink_large (suc fuel) s o = elim o [
  | none ↦ some s
  | some p ↦
      let s1 = link_large s p in
      relink_large fuel (record s1 { mark = write s1.mark p false }) (s.next p)
]

unfoldable pub sweep_large : ℕ → Objects → Option Objects
unfolding free_large relink_large
sweep_large fuel s = do s1 ← free_large fuel s; relink_large fuel s1 s1.scavenged
