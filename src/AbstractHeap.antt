-- ===== src/AbstractHeap.antt =====
-- The objects that a trace allocates (HeapSnapData, AbstractHeapEntry and AbstractHeap of vm/ir.hh and
-- vm/ir.cc). Where a table cannot grow the program exits, and the result is `none`.
pub mod Entries
pub mod Examples
use lambdachine.Common.{
  ℕ, zero, suc, ◌+◌, ◌*◌, ◌%◌, ◌^◌, ◌<◌, Bool, true, false, ltb, leb, if◌then◌else◌, write, Option,
  none, some, ◌>>=◌,
}
use lambdachine.Common.Int.{ℤ, pos, ◌+ℤ◌, ◌-ℤ◌, to_u16, to_i16}

pub record HeapSnapData : Type 0 where
  pub cells : ℕ → ℕ
  pub size : ℕ
  pub next : ℕ

unfoldable pub empty_data : HeapSnapData
empty_data = record { cells = λ _. 0; size = 0; next = 0 }

unfoldable pub grow_top : HeapSnapData → Option HeapSnapData
grow_top d =
    if ltb 50000 d.size
    then none
    else some (record d { size = if ltb (d.size * 2) 32 then 32 else d.size * 2 })

-- What the loop of `reserve` comes to: a table with room, the exit of the program because the table is
-- too large to grow, or no result as the fuel is used up.
pub data Room : Type 0 where
  with_room : HeapSnapData → Room
  too_large : Room
  out_of_fuel : Room

-- The loop of `reserve`: grow until n more cells fit. From any size the table has grown past its
-- limit after 13 rounds.
unfoldable pub make_room : ℕ → HeapSnapData → ℕ → Room
unfolding grow_top
make_room zero d n = out_of_fuel
make_room (suc fuel) d n =
    let rest : Room = elim (grow_top d) [ none ↦ too_large | some d' ↦ make_room fuel d' n ] in
    if ltb (d.next + n) d.size then with_room d else rest

abbrev reserved_in : ℕ → Room → Option (ℕ × HeapSnapData)
reserved_in n (with_room d) = some (d.next, record d { next = d.next + n })
reserved_in n too_large = none
reserved_in n out_of_fuel = none

unfoldable pub reserve : HeapSnapData → ℕ → Option (ℕ × HeapSnapData)
unfolding make_room
reserve d n = reserved_in n (make_room 16 d n)

unfoldable pub push_back : HeapSnapData → ℕ → Option (ℕ × HeapSnapData)
unfolding grow_top
push_back d ref = do
  d' ← if ltb d.next d.size then some d else grow_top d
  some (d'.next, record d' { cells = write d'.cells d'.next ref; next = d'.next + 1 })

abbrev pub set_cell : HeapSnapData → ℕ → ℕ → HeapSnapData
set_cell d n ref = record d { cells = write d.cells n ref }

-- `hpofs` is an int16_t, the other fields are 16-bit numbers; `fwdref` is 0 until an update.
pub record Entry : Type 0 where
  pub ref : ℕ
  pub size : ℕ
  pub ofs : ℕ
  pub hpofs : ℤ
  pub overallocated : ℕ
  pub fwdref : ℕ

pub record AbstractHeap : Type 0 where
  pub entries : ℕ → Entry
  pub nentries : ℕ
  pub nextentry : ℕ
  pub data_of : HeapSnapData
  pub reserved : ℤ

abbrev pub no_entry : Entry
no_entry = record { ref = 0; size = 0; ofs = 0; hpofs = pos 0; overallocated = 0; fwdref = 0 }

unfoldable pub empty_heap : AbstractHeap
unfolding empty_data
empty_heap = record {
  entries = λ _. no_entry;
  nentries = 0;
  nextentry = 0;
  data_of = empty_data;
  reserved = pos 0;
}

abbrev pub max_heap_entries : ℕ
max_heap_entries = 300

unfoldable pub heap_check : AbstractHeap → ℕ → AbstractHeap
heap_check h nwords = record h { reserved = h.reserved +ℤ pos nwords }

-- The first growth doubles its 32 entries at once.
unfoldable pub grow : AbstractHeap → Option AbstractHeap
grow h =
    let n = if ltb h.nentries 32 then 64 else h.nentries * 2 in
    if ltb h.nentries max_heap_entries
    then some (record h { nentries = if ltb max_heap_entries n then max_heap_entries else n })
    else none

unfoldable pub entry_room : AbstractHeap → Option AbstractHeap
unfolding grow
entry_room h = if leb h.nentries h.nextentry then grow h else some h

unfoldable pub place_entry : AbstractHeap → ℕ → ℕ → ℕ → HeapSnapData → AbstractHeap
place_entry h ref nfields ofs cells = record h {
  entries = write h.entries h.nextentry (record {
    ref = ref;
    size = nfields % 2 ^ 16;
    ofs = ofs % 2 ^ 16;
    hpofs = to_i16 (to_u16 (pos 0 -ℤ h.reserved));
    overallocated = 0;
    fwdref = 0;
  });
  nextentry = h.nextentry + 1;
  data_of = cells;
  reserved = h.reserved -ℤ pos (nfields + 1);
}

-- The number of the new entry.
unfoldable pub new_entry : AbstractHeap → ℕ → ℕ → Option (ℕ × AbstractHeap)
new_entry h ref nfields = do
  h' ← entry_room h
  (ofs, cells) ← reserve h'.data_of nfields
  some (h'.nextentry, place_entry h' ref nfields ofs cells)

-- The fields that an object was allocated with.
unfoldable pub num_fields : AbstractHeap → ℕ → ℕ
num_fields h n = (h.entries n).size

unfoldable pub set_field : AbstractHeap → ℕ → ℕ → ℕ → AbstractHeap
set_field h n field ref = record h { data_of = set_cell h.data_of ((h.entries n).ofs + field) ref }

unfoldable pub get_field : AbstractHeap → ℕ → ℕ → ℕ
get_field h n field = h.data_of.cells ((h.entries n).ofs + field)

unfoldable pub update : AbstractHeap → ℕ → ℕ → AbstractHeap
update h n fwdref = record h {
  entries = write h.entries n (record (h.entries n) { fwdref = fwdref % 2 ^ 16 });
}

unfoldable pub is_indirection : AbstractHeap → ℕ → ℕ
is_indirection h n = (h.entries n).fwdref

-- A copy that is no larger than what it holds.
unfoldable pub compact_copy : AbstractHeap → AbstractHeap
compact_copy src = record src {
  nentries = src.nextentry;
  data_of = record (src.data_of) { size = src.data_of.next };
  reserved = pos 0;
}
