-- ===== src/AbstractHeap/Examples.antt =====
-- Tests of the abstract heap, and the theorems about it at concrete heaps.
use lambdachine.Common.{ℕ, ◌<◌, ◌≡◌, refl, arith, write, some}
use lambdachine.AbstractHeap.{
  AbstractHeap, HeapSnapData, too_large, empty_heap, empty_data, make_room, new_entry, entry_room,
  reserve, place_entry, set_field, get_field, num_fields, is_indirection,
}
use lambdachine.AbstractHeap.Entries.{
  IsValid, Ends, make_room_enough, new_entry_lem, get_field-set_field,
}
use lambdachine.Common.Int.{pos, negsuc, ◌+ℤ◌, ◌-ℤ◌, to_u16, to_i16}

pub empty_heap-IsValid : IsValid empty_heap
unfolding empty_heap empty_data
empty_heap-IsValid = record {
  within = λ n h. absurd (omega arith);
  apart = λ n m h k. absurd (omega arith);
  entry_room = omega arith;
  entry_limit = omega arith;
  cell_room = omega arith;
}

-- One object of two fields, of the reference 40000.
abbrev pub one_object : AbstractHeap
one_object = record {
  entries =
      write
        (λ _. record { ref = 0; size = 0; ofs = 0; hpofs = pos 0; overallocated = 0; fwdref = 0 }) 0
        (record { ref = 40000; size = 2; ofs = 0; hpofs = pos 0; overallocated = 0; fwdref = 0 });
  nentries = 64;
  nextentry = 1;
  data_of = record { cells = λ _. 0; size = 32; next = 2 };
  reserved = negsuc 2;
}

allocated : new_entry empty_heap 40000 2 ≡ some (0, one_object)
unfolding new_entry entry_room reserve place_entry empty_heap ◌+ℤ◌ ◌-ℤ◌ to_u16 to_i16
allocated = refl

-- A table of 60000 cells that are all taken cannot grow.
abbrev full : HeapSnapData
full = record { cells = λ _. 0; size = 60000; next = 60000 }

full_exits : make_room 16 full 2 ≡ too_large
unfolding make_room
full_exits = refl

make_room_enough_example : Ends empty_data 2 (make_room 16 empty_data 2)
make_room_enough_example = make_room_enough 16 empty_data 2 (omega arith)

new_entry_lem_example :
    IsValid one_object
    × (0 ≡ empty_heap.nextentry)
    × (one_object.nextentry ≡ 1)
    × (num_fields one_object 0 ≡ 2)
    × (is_indirection one_object 0 ≡ 0)
    × ((m i : ℕ)
        → m < 0
        → (get_field one_object m i ≡ get_field empty_heap m i)
          × (is_indirection one_object m ≡ is_indirection empty_heap m))
unfolding empty_heap
new_entry_lem_example =
    new_entry_lem empty_heap one_object 40000 2 0 empty_heap-IsValid (omega arith) allocated

pub one_object-IsValid : IsValid one_object
one_object-IsValid = record {
  within = λ n h. ground arith;
  apart = λ n m h k. absurd (omega arith);
  entry_room = omega arith;
  entry_limit = omega arith;
  cell_room = omega arith;
}

get_field-set_field_example : get_field (set_field one_object 0 1 40001) 0 1 ≡ 40001
unfolding num_fields
get_field-set_field_example =
    get_field-set_field one_object 0 0 1 1 40001 one_object-IsValid (omega arith) (omega arith)
      (omega arith) (omega arith)
