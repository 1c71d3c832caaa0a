-- ===== src/MemoryManager/Examples.antt =====
-- Tests of the memory manager, and the theorems about it at a concrete system.
use lambdachine.Common.{ℕ, ◌+◌, ◌*◌, ◌^◌, ◌≡◌, refl, sym, Option, none, some, ◌>>=◌, arith}
use lambdachine.Regions.{
  map_from, attempt, at_address, is_aligned, round_up, new_region, init_region, init_blocks,
  init_free, init_metadata, alloc, grab_in_region,
}
use lambdachine.Regions.Examples.{system, system-IsMmap, empty_memory, map_from_run}
use lambdachine.MemoryManager.{
  Manager, closures_head, strings_head, alloc_into, bump_full_no_gc, sync, alloc_string, initial,
  set_heads, grab_head, grab_free_block, grab_from_region, block_full,
}
use lambdachine.MemoryManager.Valid.{IsValid}
use lambdachine.MemoryManager.Alloc.{IsAllocated, alloc_into_lem}
use lambdachine.MemoryManager.Bump.{IsHeap, IsBumped, sync-IsSynced, bump_full_no_gc_lem}
use lambdachine.MemoryManager.Refill.{HasRoom}
use mathlib.Core.Path.{subst}
use lambdachine.MemoryManager.Initial.{IsInitial, initial_lem}

initial_lem_example : (s : Manager) × (initial system empty_memory ≡ some s) × IsInitial s
initial_lem_example =
    initial_lem system empty_memory (2 ^ 32 + 2 ^ 20) (2 ^ 32 + 2 ^ 21) system-IsMmap refl
      map_from_run

-- The first string stands at the start of block 3 of the region.
first_string :
    (do s ← initial system empty_memory; (p, t) ← alloc_string system s 99; some p)
    ≡ some (2 ^ 32 + 2 ^ 20 + 3 * 2 ^ 15)
unfolding initial set_heads grab_head grab_free_block grab_from_region grab_in_region new_region
    init_region init_blocks init_free init_metadata round_up map_from attempt at_address is_aligned
    alloc_string alloc_into alloc block_full
first_string = refl

abbrev pub dummy : Manager
dummy = record {
  memory = empty_memory;
  region = 0;
  free = none;
  heads = λ h. 0;
  min_heap_size = 0;
  next_gc = 0;
  allocated = 0;
}

abbrev pub get : Option Manager → Manager
get none = dummy
get (some s) = s

-- What the constructor leaves.
unfoldable pub started : Manager
unfolding initial set_heads grab_head grab_free_block grab_from_region grab_in_region new_region
    init_region init_blocks init_free init_metadata round_up map_from attempt at_address is_aligned
started = get (initial system empty_memory)

pub started-IsInitial : IsInitial started
unfolding started
started-IsInitial =
    let (s, e, i) =
      initial_lem system empty_memory (2 ^ 32 + 2 ^ 20) (2 ^ 32 + 2 ^ 21) system-IsMmap refl
        map_from_run in
    subst (λ (o : Option Manager). IsInitial (get o)) (sym e) i

started-HasRoom : HasRoom system started
unfolding started map_from attempt at_address is_aligned
started-HasRoom = (_, refl)

alloc_into_lem_example :
    (p : ℕ) × (s : Manager) × (alloc_into system 2 started strings_head 31456 ≡ some (p, s))
    × IsAllocated started strings_head 31456 p s
alloc_into_lem_example =
    alloc_into_lem system system-IsMmap started strings_head 31456 started-IsInitial.valid
      (started-IsInitial.set strings_head) (omega arith) started-HasRoom

-- The mutator filled its first block.
abbrev heap : ℕ
heap = 2 ^ 32 + 2 ^ 20 + 3 * 2 ^ 15

heap-IsHeap : IsHeap started heap
unfolding started
heap-IsHeap = (started-IsInitial.set closures_head, omega arith, omega arith)

bump_full_no_gc_lem_example :
    (s : Manager) × (lo : ℕ) × (hi : ℕ) × (bump_full_no_gc system started heap
      ≡ some (s, some (lo, hi)))
    × IsBumped started heap s lo hi
unfolding started
bump_full_no_gc_lem_example =
    bump_full_no_gc_lem system started heap system-IsMmap started-IsInitial.valid heap-IsHeap
      (omega arith) (omega arith) started-HasRoom

-- The same with 100 bytes in use and a collection due.
abbrev due : Manager
due = record (sync started (2 ^ 32 + 2 ^ 20 + 2 ^ 16 + 104)) { next_gc = 1 }

due-IsValid : IsValid due
unfolding started
due-IsValid =
    (sync-IsSynced started (2 ^ 32 + 2 ^ 20 + 2 ^ 16 + 104) started-IsInitial.valid
      (started-IsInitial.set closures_head, omega arith, omega arith) 1).valid

due-IsHeap : IsHeap due heap
unfolding started sync
due-IsHeap = (started-IsInitial.set closures_head, omega arith, omega arith)
