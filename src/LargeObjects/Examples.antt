-- ===== src/LargeObjects/Examples.antt =====
-- Tests of the lists of large objects, and the theorems about them at concrete lists.
use lambdachine.Common.{◌≡◌, refl, false, none, some, [], ◌∷◌, arith}
use lambdachine.LargeObjects.{
  Objects, link_large, unlink_large, unlink_next, enlist_large, evacuate_large, free_large,
  last_object,
}
use lambdachine.LargeObjects.Linked.{IsLarge}
use lambdachine.LargeObjects.Unlink.{link_large-IsLarge, unlink_large-IsLarge}
use lambdachine.LargeObjects.Enlisted.{
  IsEnlisted, IsCutBehind, enlist_large-IsEnlisted, evacuate_large-IsEnlisted,
}

abbrev pub no_objects : Objects
no_objects = record {
  prev = λ x. none;
  next = λ x. none;
  mark = λ x. false;
  payload_size = λ x. 0;
  large = none;
  evacuated = none;
  scavenged = none;
  freed = none;
}

-- Three objects, linked one after the other.
unfoldable three : Objects
unfolding link_large
three = link_large (link_large (link_large no_objects 3) 2) 1

three-IsLarge : IsLarge three (1 ∷ 2 ∷ 3 ∷ [])
unfolding three
three-IsLarge =
    let one = link_large-IsLarge no_objects 3 [] (omega arith) refl in
    let two =
      link_large-IsLarge (link_large no_objects 3) 2 (3 ∷ []) (omega arith, omega arith) one in
    link_large-IsLarge (link_large (link_large no_objects 3) 2) 1 (2 ∷ 3 ∷ [])
      (omega arith, (omega arith, omega arith)) two

unlink_large-IsLarge_example : IsLarge (unlink_large three 2) (1 ∷ 3 ∷ [])
unlink_large-IsLarge_example = unlink_large-IsLarge three 2 (1 ∷ []) (3 ∷ []) three-IsLarge

three_unmarked : three.mark 2 ≡ false
unfolding three link_large
three_unmarked = refl

-- Three objects as allocLarge makes them, the newest one first.
unfoldable allocated : Objects
unfolding enlist_large
allocated = enlist_large (enlist_large (enlist_large no_objects 3 64) 2 64) 1 64

allocated-IsEnlisted : IsEnlisted allocated (1 ∷ 2 ∷ 3 ∷ [])
unfolding allocated
allocated-IsEnlisted =
    let one = enlist_large-IsEnlisted no_objects 3 64 [] (omega arith) refl in
    let two =
      enlist_large-IsEnlisted (enlist_large no_objects 3 64) 2 64 (3 ∷ [])
        (omega arith, omega arith) one in
    enlist_large-IsEnlisted (enlist_large (enlist_large no_objects 3 64) 2 64) 1 64 (2 ∷ 3 ∷ [])
      (omega arith, (omega arith, omega arith)) two

allocated_unmarked : allocated.mark 2 ≡ false
unfolding allocated
allocated_unmarked = refl

evacuate_large-IsEnlisted_example : IsCutBehind allocated 2 (3 ∷ []) (evacuate_large allocated 2)
evacuate_large-IsEnlisted_example =
    evacuate_large-IsEnlisted allocated 2 (1 ∷ []) (3 ∷ []) allocated-IsEnlisted allocated_unmarked

-- allocLarge does not tell the old front that an object stands before it, so that unlinking the old
-- front empties the list although the new object is in it.
enlisted_lost : (unlink_large (enlist_large (enlist_large no_objects 1 64) 2 64) 1).large ≡ none
unfolding unlink_large unlink_next enlist_large
enlisted_lost = refl

-- Of three freed objects, the list of free ones keeps the last.
freed_lost :
    (t : Objects) × (free_large 4 (record three { freed = some 7 }) ≡ some t) × (t.freed ≡ some 3)
unfolding free_large last_object three link_large
freed_lost = (_, refl, refl)
