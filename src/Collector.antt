-- ===== src/Collector.antt =====
-- The copying collector's evacuation (evacuate, copy and the forwarding pointers of
-- vm/memorymanager.cc, with the closures of vm/objects.hh) and its walks over frames, static roots
-- and blocks.
pub mod Copy
pub mod Evacuate
pub mod Scavenge
pub mod Frames
pub mod Gc
pub mod Release
pub mod Examples
use lambdachine.Common.{
  ℕ, zero, suc, ◌+◌, ◌-◌, ◌*◌, ◌/◌, ◌%◌, ◌^◌, ◌≡◌, Bool, true, false, ltb, leb, ◌==◌, if◌then◌else◌,
  write, Option, none, some, ◌>>=◌,
}
use lambdachine.Regions.{Block, Mmap, contents, closures, block_from_pointer}
use lambdachine.MemoryManager.{Manager, closures_head, alloc_into}
use lambdachine.LargeObjects.{Objects, evacuate_large}
use Prim.Native.Nat.{bit_or}

pub data ClosureType : Type 0 where
  invalid_object : ClosureType
  constr : ClosureType
  fun : ClosureType
  thunk : ClosureType
  ind : ClosureType
  caf : ClosureType
  pap : ClosureType
  large : ClosureType
  ap_cont : ClosureType
  static_ind : ClosureType
  update_frame : ClosureType
  blackhole : ClosureType

-- What the collector reads of an info table.
pub record Info : Type 0 where
  pub kind : ClosureType
  pub size : ℕ
  pub bitmap : ℕ

-- The memory by words at their addresses, and the info tables by theirs.
pub record Heap : Type 0 where
  pub manager : Manager
  pub objects : Objects
  pub word : ℕ → ℕ
  pub info : ℕ → Info

abbrev pub set_word : Heap → ℕ → ℕ → Heap
set_word g a w = record g { word = write g.word a w }

-- `&cl->payload_[i]`.
abbrev pub payload_at : ℕ → ℕ → ℕ
payload_at cl i = cl + 8 + 8 * i

unfoldable pub is_forwarding : ℕ → Bool
is_forwarding info = info % 2 == 1

-- `p ^ 1` of a pointer that has the bit, and `p | 1`.
unfoldable pub get_forwarding : ℕ → ℕ
get_forwarding info = info - 1

unfoldable pub make_forwarding : ℕ → ℕ
make_forwarding p = bit_or p 1

unfoldable pub alloc_closure : Mmap → Heap → ℕ → ℕ → Option (ℕ × Heap)
unfolding alloc_into
alloc_closure mmap g info payload_words = do
  (cl, m) ← alloc_into mmap 2 g.manager closures_head ((1 + payload_words) * 8)
  some (cl, set_word (record g { manager = m }) cl info)

-- The loop that copies the payload from word i on.
unfoldable pub copy_payload : ℕ → (ℕ → ℕ) → ℕ → ℕ → ℕ → ℕ → ℕ
copy_payload zero word from to i = word
copy_payload (suc rounds) word from to i =
    copy_payload rounds (write word (payload_at to i) (word (payload_at from i))) from to (i + 1)

unfoldable pub copy : Mmap → Heap → ℕ → ℕ → ℕ → Option Heap
unfolding alloc_closure copy_payload make_forwarding
copy mmap g src info payload_size = do
  (to, g1) ← alloc_closure mmap g info payload_size
  let from = g.word src
  let copied = copy_payload payload_size (write g1.word src to) from to 0
  some (record g1 { word = write copied from (make_forwarding to) })

-- The number of words after the header of a partial application: the info word, the function and the
-- arguments, whose number is the low half of the info word.
abbrev pub pap_size : Heap → ℕ → ℕ
pap_size g q = g.word (q + 8) % 2 ^ 32 + 2

-- What evacuate does next with the object.
pub data Action : Type 0 where
  forwarded : Action
  static_object : Action
  copied : ℕ → Action
  indirection : Action
  large_object : Action
  failure : Action

unfoldable pub action_of : ClosureType → ℕ → ℕ → Action
action_of constr size nargs = copied size
action_of thunk size nargs = copied size
action_of fun size nargs = copied size
action_of ind size nargs = indirection
action_of pap size nargs = copied nargs
action_of large size nargs = large_object
action_of invalid_object size nargs = failure
action_of caf size nargs = failure
action_of ap_cont size nargs = failure
action_of static_ind size nargs = failure
action_of update_frame size nargs = failure
action_of blackhole size nargs = failure

-- The tests of evacuate on the object q, in their order.
unfoldable pub action : Heap → ℕ → Action
unfolding is_forwarding block_from_pointer action_of
action g q =
    let info = g.word q in
    if is_forwarding info
    then forwarded
    else if contents (g.manager.memory.block (block_from_pointer q)) == closures
    then action_of (g.info info).kind (g.info info).size (pap_size g q)
    else static_object

-- The loop of evacuate at the slot p with the object q; an indirection takes one of the fuel, and
-- where the code exits or the fuel is used the result is `none`. An object is `largeObjectFromClosure`
-- 32 bytes before its closure.
unfoldable pub evacuate_from : ℕ → Mmap → Heap → ℕ → ℕ → Option Heap
unfolding get_forwarding action copy evacuate_large
evacuate_from zero mmap g p q = none
evacuate_from (suc fuel) mmap g p q = elim (action g q) [
  | forwarded ↦ some (set_word g p (get_forwarding (g.word q)))
  | static_object ↦ some g
  | copied size ↦ copy mmap g p (g.word q) size
  | indirection ↦
      evacuate_from fuel mmap (set_word g p (g.word (payload_at q 0))) p (g.word (payload_at q 0))
  | large_object ↦ some (record g { objects = evacuate_large g.objects (q - 32) })
  | failure ↦ none
]

unfoldable pub evacuate : ℕ → Mmap → Heap → ℕ → Option Heap
unfolding evacuate_from
evacuate fuel mmap g p = evacuate_from fuel mmap g p (g.word p)
