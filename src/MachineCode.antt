-- ===== src/MachineCode.antt =====
-- The area of machine code (MachineCode of vm/jit.hh and vm/machinecode.cc, with Prng of vm/jit.hh).
-- An address is a number, 0 for NULL; the exit handler asmExit lies at the address `exit`.
pub mod Reach
pub mod Examples
use lambdachine.Common.{
  ℕ, zero, suc, ◌+◌, ◌-◌, ◌*◌, ◌/◌, ◌%◌, ◌^◌, Bool, true, false, not, ◌&&◌, ◌||◌, ltb, ◌==◌,
  if◌then◌else◌, Option, none, some, ◌>>=◌,
}
use Prim.Native.Nat.{bit_xor}

-- The state of the generator after a number is drawn, and the number.
unfoldable pub next : ℕ → ℕ
next s = (s * 1103515245 + 12345) % 2 ^ 32

unfoldable pub bits : ℕ → ℕ → ℕ
unfolding next
bits n s = next s / 2 ^ (32 - n)

-- The system's mmap: from the attempts that are left, the hint and the size to the address of new
-- memory, or MAP_FAILED.
abbrev pub System : Type 0
System = ℕ → ℕ → ℕ → Option ℕ

abbrev pub jump_range : ℕ
jump_range = 2 ^ 31 - 2 ^ 21

abbrev pub area_size : ℕ
area_size = 2 ^ 22

abbrev pub page_size : ℕ
page_size = 4096

-- PROT_READ | PROT_WRITE and PROT_READ | PROT_EXEC.
abbrev pub generating : ℕ
generating = 3

abbrev pub running : ℕ
running = 5

unfoldable pub is_valid_pointer : ℕ → Bool
is_valid_pointer p = not (p == 0) && ltb p (2 ^ 47)

unfoldable pub in_range : ℕ → ℕ → ℕ → Bool
in_range target p size =
    ltb ((p + size + 2 ^ 64 - target) % 2 ^ 64) jump_range
    || ltb ((target + 2 ^ 64 - p) % 2 ^ 64) jump_range

-- Memory that cannot be reached is given back.
unfoldable pub attempt : System → ℕ → ℕ → ℕ → ℕ → Option ℕ
attempt system left target hint size =
    if is_valid_pointer hint
    then elim (system left hint size) [
      | none ↦ none
      | some p ↦ if is_valid_pointer p && in_range target p size then some p else none
    ]
    else none

-- The inner loop: numbers are drawn until one is a hint within the range.
unfoldable pub draw_hint : ℕ → ℕ → ℕ → Option (ℕ × ℕ)
draw_hint zero size s = none
draw_hint (suc fuel) size s =
    let hint = bit_xor 30971 (bits 15 s) * 2 ^ 16 in
    elim (ltb (hint + size) jump_range) [
      | true ↦ some (hint, next s)
      | false ↦ draw_hint fuel size (next s)
    ]

-- The attempts of alloc, from a hint and a state of the generator on: the address, or NULL when all have
-- failed, and the generator's state.
unfoldable pub alloc_from : System → ℕ → ℕ → ℕ → ℕ → ℕ → ℕ → Option (ℕ × ℕ)
alloc_from system fuel target size zero hint s = some (0, s)
alloc_from system fuel target size (suc left) hint s = elim (attempt system left target hint size) [
  | some p ↦ some (p, s)
  | none ↦ draw_hint fuel size s >>= (λ ((h, s') : ℕ × ℕ).
      alloc_from system fuel target size left ((target + h + 2 ^ 64 - jump_range / 2) % 2 ^ 64) s')
]

unfoldable pub alloc : System → ℕ → ℕ → ℕ → ℕ → Option (ℕ × ℕ)
alloc system fuel exit size s = alloc_from system fuel (exit / 2 ^ 16 * 2 ^ 16) size 32 0 s

pub record MachineCode : Type 0 where
  pub prng : ℕ
  pub protection : ℕ
  pub area : ℕ
  pub top : ℕ
  pub bottom : ℕ
  pub size : ℕ
  pub size_total : ℕ

unfoldable pub initial : ℕ → MachineCode
initial s = record {
  prng = s;
  protection = 0;
  area = 0;
  top = 0;
  bottom = 0;
  size = 0;
  size_total = 0;
}

unfoldable pub alloc_area : System → ℕ → ℕ → MachineCode → Option MachineCode
alloc_area system fuel exit m =
    let size = (area_size + page_size - 1) / page_size * page_size in
    alloc system fuel exit size m.prng >>= (λ ((p, s) : ℕ × ℕ). some (record {
      prng = s;
      protection = generating;
      area = p;
      top = p + size;
      bottom = p;
      size = size;
      size_total = size;
    }))

-- The protection of the area is changed where it differs.
unfoldable pub protect : ℕ → MachineCode → MachineCode
protect prot m = if m.protection == prot then m else record m { protection = prot }

-- The bounds between which code may be written, the upper one first.
unfoldable pub reserve : System → ℕ → ℕ → MachineCode → Option (ℕ × ℕ × MachineCode)
reserve system fuel exit m =
    (if m.area == 0 then alloc_area system fuel exit m else some (protect generating m))
    >>= (λ (m' : MachineCode). some (m'.top, m'.bottom, m'))

unfoldable pub commit : ℕ → MachineCode → MachineCode
commit top m = protect running (record m { top = top })

unfoldable pub commit_stub : ℕ → MachineCode → MachineCode
commit_stub bottom m = record m { bottom = bottom }

unfoldable pub abort : MachineCode → MachineCode
abort m = protect running m

unfoldable pub patch_begin : MachineCode → ℕ × MachineCode
patch_begin m = let m' = protect generating m in (m'.area, m')

unfoldable pub patch_finish : MachineCode → MachineCode
patch_finish m = protect running m
