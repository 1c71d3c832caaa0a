-- ===== src/MachineCode/Examples.antt =====
-- An area of machine code that the system maps where it is asked to.
use lambdachine.Common.{ℕ, ◌+◌, ◌^◌, ◌≡◌, ◌<◌, refl, ltb, some, arith, if◌then◌else◌}
use lambdachine.MachineCode.{
  System, bits, next, initial, reserve, alloc, alloc_area, alloc_from, draw_hint, attempt, in_range,
  is_valid_pointer, MachineCode, commit, commit_stub, patch_begin, patch_finish, protect,
}
use lambdachine.MachineCode.Reach.{reserve_lem}

-- Memory at the hint, but below 1 TB an address out of reach.
abbrev mapping : System
mapping left hint size = if ltb hint (2 ^ 40) then some (2 ^ 32) else some hint

abbrev handler : ℕ
handler = 2 ^ 40 + 100

abbrev seed : ℕ
seed = 120301630

abbrev made : MachineCode
made = record {
  prng = 953005727;
  protection = 3;
  area = 1100126945280;
  top = 1100131139584;
  bottom = 1100126945280;
  size = 4194304;
  size_total = 4194304;
}

reserved : reserve mapping 10 handler (initial seed) ≡ some (1100131139584, 1100126945280, made)
unfolding bits next initial reserve alloc alloc_area alloc_from draw_hint attempt in_range
    is_valid_pointer
reserved = refl

-- Code is put at the top of the area and a stub at its bottom; later the code is patched.
patched :
    patch_finish (patch_begin (commit_stub 1100126945300 (commit 1100131139500 made))).1
    ≡ record made { protection = 5; top = 1100131139500; bottom = 1100126945300 }
unfolding patch_finish patch_begin commit_stub commit protect
patched = refl

reserve_lem_example : (1100126945285 < handler + 2 ^ 31) × (handler < 1100126945285 + 2 ^ 31)
reserve_lem_example =
    reserve_lem mapping 10 handler seed 1100131139584 1100126945280 1100126945285 made (omega arith)
      reserved (omega arith) (omega arith) (omega arith)
