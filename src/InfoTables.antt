-- ===== src/InfoTables.antt =====
-- Info tables (the constructor's part, allocInfoTable, beginAllocInfoTable, endAllocInfoTable, infoTables and
-- looksLikeInfoTable of vm/memorymanager.cc): their blocks are read-only except while tables are
-- allocated. That the system changes the protection is taken for granted, as the code asserts it.
pub mod Protection
use lambdachine.Common.{
  ℕ, zero, suc, ◌+◌, ◌-◌, ◌*◌, ◌%◌, ◌^◌, Bool, true, false, ◌==◌, if◌then◌else◌, write, Option,
  none, some, ◌>>=◌,
}
use lambdachine.Regions.{Block, Memory, Mmap, alloc, contents, info_tables, block_from_pointer}
use lambdachine.MemoryManager.{
  Manager, initial, info_tables_head, head_block, set_block, block_full,
}

-- The blocks whose memory is read-only, by the addresses of their headers.
pub record InfoTables : Type 0 where
  pub manager : Manager
  pub level : ℕ
  pub read_only : ℕ → Bool

-- markBlockReadOnly and markBlockReadWrite.
abbrev pub protect : InfoTables → ℕ → Bool → InfoTables
protect s b r = record s { read_only = write s.read_only b r }

abbrev pub table_block : InfoTables → ℕ
table_block s = s.manager.heads info_tables_head

-- The constructor: of the blocks that it takes, that of the info tables is protected.
unfoldable pub initial_tables : Mmap → Memory → Option InfoTables
initial_tables mmap m = do
  manager ← initial mmap m
  some (record {
    manager = manager;
    level = 0;
    read_only = write (λ b. false) (manager.heads info_tables_head) true;
  })

unfoldable pub begin_alloc : InfoTables → InfoTables
begin_alloc s =
    let s' = if s.level == 0 then protect s (table_block s) false else s in
    record s' { level = s.level + 1 }

unfoldable pub end_alloc : InfoTables → InfoTables
end_alloc s =
    let s' = record s { level = s.level - 1 } in
    if s.level - 1 == 0 then protect s' (table_block s') true else s'

abbrev pub is_page_aligned : ℕ → Bool
is_page_aligned p = p % 2 ^ 12 == 0

abbrev pub taken : InfoTables → ℕ → Block → InfoTables
taken s bytes b =
    let m = set_block s.manager (table_block s) b in
    record s { manager = record m { allocated = (m.allocated + bytes) % 2 ^ 64 } }

-- The loop while there is no room: the full block is protected and the next one taken, another one
-- when its start is at no page.
unfoldable pub next_table_block : ℕ → Mmap → InfoTables → ℕ → Option (ℕ × InfoTables)
unfolding block_full alloc
next_table_block zero mmap s bytes = none
next_table_block (suc rounds) mmap s bytes = elim (block_full mmap s.manager info_tables_head) [
  | none ↦ none
  | some m ↦
      let s' : InfoTables = record (protect s (table_block s) true) { manager = m } in
      elim (is_page_aligned (head_block m info_tables_head).start) [
        | false ↦ next_table_block rounds mmap s' bytes
        | true ↦ elim (alloc (head_block m info_tables_head) bytes) [
          | none ↦ next_table_block rounds mmap s' bytes
          | some (p, b) ↦ some (p, taken s' bytes b)
        ]
      ]
]

unfoldable pub alloc_info_table : ℕ → Mmap → InfoTables → ℕ → Option (ℕ × InfoTables)
unfolding next_table_block
alloc_info_table rounds mmap s nwords =
    elim (alloc (head_block s.manager info_tables_head) (nwords * 8)) [
      | some (p, b) ↦ some (p, taken s (nwords * 8) b)
      | none ↦ next_table_block rounds mmap s (nwords * 8)
    ]

-- The number of blocks, counted along their links from block b on.
unfoldable pub count_blocks : ℕ → Memory → ℕ → Option ℕ
count_blocks zero m b = none
count_blocks (suc rounds) m b = elim (m.block b).link [
  | none ↦ some 1
  | some next ↦ elim (count_blocks rounds m next) [ none ↦ none | some n ↦ some (n + 1) ]
]

unfoldable pub looks_like_info_table : Memory → ℕ → Bool
unfolding block_from_pointer
looks_like_info_table m p = contents (m.block (block_from_pointer p)) == info_tables
