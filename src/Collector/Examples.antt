-- ===== src/Collector/Examples.antt =====
-- Tests of the collector, and the theorems about it at a concrete heap.
use lambdachine.Common.{
  ℕ, ◌+◌, ◌*◌, ◌^◌, ◌≤◌, ◌≡◌, ◌≢◌, inl, inr, refl, write, Option, none, some, ◌>>=◌, [], ◌∷◌, arith,
}
use lambdachine.Regions.{Block, alloc, block_from_pointer, region_from_pointer}
use lambdachine.Regions.Examples.{system, system-IsMmap, empty_memory}
use lambdachine.MemoryManager.{Manager, closures_head, sync, alloc_into}
use lambdachine.MemoryManager.Valid.{IsValid, IsUsed}
use lambdachine.MemoryManager.Bump.{sync-IsSynced}
use lambdachine.MemoryManager.Examples.{started, started-IsInitial, dummy}
use lambdachine.LargeObjects.Examples.{no_objects}
use lambdachine.StackScan.{translated_mask}
use lambdachine.StackScan.Bitmaps.{visit_bits}
use lambdachine.Collector.{Heap, constr, action, action_of, copied, is_forwarding, evacuate}
use lambdachine.Collector.Evacuate.{IsCopyable, IsCopied, evacuate-copies, evacuate-shares}
use lambdachine.Collector.Scavenge.{scavenge_frame}
use lambdachine.Collector.Frames.{evacuate_slot, scavenge_frame-mask}
use lambdachine.Collector.Gc.{release}
use lambdachine.Collector.Release.{IsReleased, release_lem}

-- The mutator has used 104 bytes of its first block.
abbrev used_to : ℕ
used_to = 2 ^ 32 + 2 ^ 20 + 2 ^ 16 + 104

abbrev manager : Manager
manager = sync started used_to

used_heap :
    (started.heads closures_head ≢ 0)
    × ((started.memory.block (started.heads closures_head)).free ≤ used_to)
    × (used_to ≤ (started.memory.block (started.heads closures_head)).end)
unfolding started
used_heap = (started-IsInitial.set closures_head, omega arith, omega arith)

manager-IsValid : IsValid manager
unfolding started sync
manager-IsValid = (sync-IsSynced started used_to started-IsInitial.valid used_heap 2).valid

manager_set : manager.heads closures_head ≢ 0
unfolding sync
manager_set = used_heap.0

-- A constructor with two fields at the start of the block, whose info table is at 512, and two slots
-- of the stack that hold it.
abbrev object : ℕ
object = 2 ^ 32 + 2 ^ 20 + 2 ^ 16

abbrev heap : Heap
heap = record {
  manager = manager;
  objects = no_objects;
  word =
      write
        (write (write (write (write (λ a. 0) object 512) (object + 8) 7) (object + 16) 8) 4096
          object)
        4104 object;
  info = λ i. record { kind = constr; size = 2; bitmap = 3 };
}

object_used : (i : ℕ) → i ≤ 2 → IsUsed manager (object + 8 * i)
unfolding started sync
object_used i h =
    ((sync-IsSynced started used_to started-IsInitial.valid used_heap 2).used (object + 8 * i)).1
      (inr (omega arith, omega arith))

object_action : action heap object ≡ copied 2
unfolding action action_of is_forwarding block_from_pointer region_from_pointer started sync
object_action = refl

abbrev second : Option (ℕ × Manager) → Manager
second none = dummy
second (some (p, m)) = m

abbrev grown : Manager
grown = second (alloc_into system 2 manager closures_head ((1 + 2) * 8))

allocated : alloc_into system 2 manager closures_head ((1 + 2) * 8) ≡ some (used_to, grown)
unfolding alloc_into alloc started sync
allocated = refl

copyable : IsCopyable heap 4096 object 2 used_to
copyable = record {
  slot = refl;
  object = object_used;
  out_of_object = inl (omega arith);
  out_of_copy = inl (omega arith);
  even = refl;
}

evacuate-copies_example :
    (g : Heap) × (evacuate 1 system heap 4096 ≡ some g)
    × IsCopied heap 4096 object 2 used_to g
    × (g.manager ≡ grown)
evacuate-copies_example =
    evacuate-copies 0 system heap 4096 object 2 used_to grown system-IsMmap manager-IsValid
      manager_set (omega arith) object_action allocated copyable

-- The heap after the first slot is evacuated; the second one still holds the object.
after_first :
    (g : Heap) × (evacuate 1 system heap 4096 ≡ some g)
    × IsCopied heap 4096 object 2 used_to g
    × (g.manager ≡ grown)
after_first =
    evacuate-copies 0 system heap 4096 object 2 used_to grown system-IsMmap manager-IsValid
      manager_set (omega arith) object_action allocated copyable

abbrev forwarded_heap : Heap
forwarded_heap = after_first.0

still_held : forwarded_heap.word 4104 ≡ object
still_held = after_first.2.rest 4104 (omega arith) (omega arith) (inl (omega arith))

evacuate-shares_example :
    (g : Heap) × (evacuate 1 system forwarded_heap 4104 ≡ some g)
    × (g.word 4104 ≡ used_to)
    × (g.manager ≡ forwarded_heap.manager)
    × ((a : ℕ) → a ≢ 4104 → g.word a ≡ forwarded_heap.word a)
evacuate-shares_example =
    evacuate-shares 0 system heap 4096 object 2 used_to forwarded_heap 4104 copyable after_first.2
      still_held

-- A mask with slots 0, 15 and 31.
scavenge_frame-mask_example :
    scavenge_frame 1 system 3 heap 4096 (some (translated_mask (2 ^ 31 + 2 ^ 15 + 1))) ≡ (
      evacuate 1 system heap 4088 >>= λ g.
      visit_bits (evacuate_slot 1 system 4096) 32 (some g) (2 ^ 31 + 2 ^ 15 + 1) 0)
scavenge_frame-mask_example =
    scavenge_frame-mask 1 system heap 4096 (2 ^ 31 + 2 ^ 15 + 1) (omega arith)

-- An old heap of two blocks, and a list of one free block.
abbrev old_block : Option ℕ → Block
old_block l = record { start = 100; end = 200; free = 150; link = l; flags = 1 }

abbrev old_heap : Manager
old_heap = record dummy {
  memory = record empty_memory {
    block =
        write (write (write empty_memory.block 10 (old_block (some 20))) 20 (old_block none)) 30
          (old_block none);
  };
  free = some 30;
}

release_lem_example :
    (t : Manager) × (release 3 old_heap (some 10) ≡ some t)
    × IsReleased old_heap (10 ∷ 20 ∷ []) (30 ∷ []) t
release_lem_example =
    release_lem old_heap (some 10) (10 ∷ 20 ∷ []) (30 ∷ [])
      (refl, (omega arith, omega arith), (refl, omega arith, refl)) (refl, omega arith, refl)
      ((omega arith, omega arith), ((omega arith, omega arith), omega arith))
