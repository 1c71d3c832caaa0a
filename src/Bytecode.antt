-- ===== src/Bytecode.antt =====
-- The bytecode instructions (vm/bytecode.hh, vm/bytecode.cc): opcodes, operand formats, and the
-- 32-bit encodings with their field accessors. `x >> k` is `x / 2 ^ k` and `x & 0xff` is `x % 2 ^ 8`.
pub mod Encoding
pub mod Examples
use lambdachine.Common.{ℕ, zero, suc, ◌+◌, ◌*◌, ◌/◌, ◌%◌, ◌^◌, Option, List, [], ◌∷◌, get_elem?}
use lambdachine.Common.Int.{ℤ, pos, ◌+ℤ◌, sub_ℕ, to_u16, to_i16}
use Prim.Native.Nat.{bit_or}

pub data Opcode : Type 0 where
  islt isge isle isgt iseq isne isltu isgeu isleu isgtu neg mov mov_res update loadf : Opcode
  loadfv loadbh loadslf initf addrr subrr mulrr divrr remrr cmplt cmpge cmple cmpgt cmpeq : Opcode
  cmpne cmpltu cmpgeu cmpleu cmpgtu bnot band bor bxor bshl bshr bsar brol bror ptrofsc : Opcode
  gettag loadk kint new_int alloc1 alloc allocap call callt ret1 retn jmp eval case case_s : Opcode
  raise newbytea geta1 geta2 geta4 geta8 seta1 seta2 seta4 seta8 func ifunc jfunc funcpap : Opcode
  jret iret sync stop : Opcode

-- The operand formats IFM_J ... IFM_RRJ; `other` is IFM____.
pub data InsFormat : Type 0 where
  j r rr rrr rn rrn rs rrj other : InsFormat

unfoldable pub number : Opcode → ℕ
number islt = 0
number isge = 1
number isle = 2
number isgt = 3
number iseq = 4
number isne = 5
number isltu = 6
number isgeu = 7
number isleu = 8
number isgtu = 9
number neg = 10
number mov = 11
number mov_res = 12
number update = 13
number loadf = 14
number loadfv = 15
number loadbh = 16
number loadslf = 17
number initf = 18
number addrr = 19
number subrr = 20
number mulrr = 21
number divrr = 22
number remrr = 23
number cmplt = 24
number cmpge = 25
number cmple = 26
number cmpgt = 27
number cmpeq = 28
number cmpne = 29
number cmpltu = 30
number cmpgeu = 31
number cmpleu = 32
number cmpgtu = 33
number bnot = 34
number band = 35
number bor = 36
number bxor = 37
number bshl = 38
number bshr = 39
number bsar = 40
number brol = 41
number bror = 42
number ptrofsc = 43
number gettag = 44
number loadk = 45
number kint = 46
number new_int = 47
number alloc1 = 48
number alloc = 49
number allocap = 50
number call = 51
number callt = 52
number ret1 = 53
number retn = 54
number jmp = 55
number eval = 56
number case = 57
number case_s = 58
number raise = 59
number newbytea = 60
number geta1 = 61
number geta2 = 62
number geta4 = 63
number geta8 = 64
number seta1 = 65
number seta2 = 66
number seta4 = 67
number seta8 = 68
number func = 69
number ifunc = 70
number jfunc = 71
number funcpap = 72
number jret = 73
number iret = 74
number sync = 75
number stop = 76

-- The opcodes in the order of their numbers.
abbrev opcodes : List Opcode
opcodes =
    islt ∷ isge ∷ isle ∷ isgt ∷ iseq ∷ isne ∷ isltu ∷ isgeu ∷ isleu ∷ isgtu ∷ neg ∷ mov ∷ mov_res
    ∷ update ∷ loadf ∷ loadfv ∷ loadbh ∷ loadslf ∷ initf ∷ addrr ∷ subrr ∷ mulrr ∷ divrr ∷ remrr
    ∷ cmplt ∷ cmpge ∷ cmple ∷ cmpgt ∷ cmpeq ∷ cmpne ∷ cmpltu ∷ cmpgeu ∷ cmpleu ∷ cmpgtu ∷ bnot
    ∷ band ∷ bor ∷ bxor ∷ bshl ∷ bshr ∷ bsar ∷ brol ∷ bror ∷ ptrofsc ∷ gettag ∷ loadk ∷ kint
    ∷ new_int ∷ alloc1 ∷ alloc ∷ allocap ∷ call ∷ callt ∷ ret1 ∷ retn ∷ jmp ∷ eval ∷ case ∷ case_s
    ∷ raise ∷ newbytea ∷ geta1 ∷ geta2 ∷ geta4 ∷ geta8 ∷ seta1 ∷ seta2 ∷ seta4 ∷ seta8 ∷ func
    ∷ ifunc ∷ jfunc ∷ funcpap ∷ jret ∷ iret ∷ sync ∷ stop ∷ []

-- The opcode of a number, if it is one.
unfoldable pub of_number : ℕ → Option Opcode
of_number n = get_elem? opcodes n

unfoldable pub format : Opcode → InsFormat
format islt = InsFormat.rrj
format isge = InsFormat.rrj
format isle = InsFormat.rrj
format isgt = InsFormat.rrj
format iseq = InsFormat.rrj
format isne = InsFormat.rrj
format isltu = InsFormat.rrj
format isgeu = InsFormat.rrj
format isleu = InsFormat.rrj
format isgtu = InsFormat.rrj
format neg = InsFormat.rr
format mov = InsFormat.rr
format mov_res = InsFormat.rn
format update = InsFormat.rr
format loadf = InsFormat.rrn
format loadfv = InsFormat.rn
format loadbh = InsFormat.r
format loadslf = InsFormat.r
format initf = InsFormat.rrn
format addrr = InsFormat.rrr
format subrr = InsFormat.rrr
format mulrr = InsFormat.rrr
format divrr = InsFormat.rrr
format remrr = InsFormat.rrr
format cmplt = InsFormat.rrr
format cmpge = InsFormat.rrr
format cmple = InsFormat.rrr
format cmpgt = InsFormat.rrr
format cmpeq = InsFormat.rrr
format cmpne = InsFormat.rrr
format cmpltu = InsFormat.rrr
format cmpgeu = InsFormat.rrr
format cmpleu = InsFormat.rrr
format cmpgtu = InsFormat.rrr
format bnot = InsFormat.rr
format band = InsFormat.rrr
format bor = InsFormat.rrr
format bxor = InsFormat.rrr
format bshl = InsFormat.rrr
format bshr = InsFormat.rrr
format bsar = InsFormat.rrr
format brol = InsFormat.rrr
format bror = InsFormat.rrr
format ptrofsc = InsFormat.rrr
format gettag = InsFormat.rr
format loadk = InsFormat.rn
format kint = InsFormat.rs
format new_int = InsFormat.rs
format alloc1 = InsFormat.other
format alloc = InsFormat.other
format allocap = InsFormat.other
format call = InsFormat.other
format callt = InsFormat.other
format ret1 = InsFormat.r
format retn = InsFormat.r
format jmp = InsFormat.j
format eval = InsFormat.other
format case = InsFormat.other
format case_s = InsFormat.other
format raise = InsFormat.r
format newbytea = InsFormat.rrn
format geta1 = InsFormat.rrr
format geta2 = InsFormat.rrr
format geta4 = InsFormat.rrr
format geta8 = InsFormat.rrr
format seta1 = InsFormat.rrr
format seta2 = InsFormat.rrr
format seta4 = InsFormat.rrr
format seta8 = InsFormat.rrr
format func = InsFormat.r
format ifunc = InsFormat.r
format jfunc = InsFormat.rn
format funcpap = InsFormat.other
format jret = InsFormat.rn
format iret = InsFormat.rn
format sync = InsFormat.other
format stop = InsFormat.other

-- An instruction is its raw 32-bit word.
unfoldable pub abc : Opcode → ℕ → ℕ → ℕ → ℕ
unfolding number
abc o a b c = bit_or (bit_or (bit_or (number o) (a * 2 ^ 8)) (b * 2 ^ 24)) (c * 2 ^ 16)

unfoldable pub ad : Opcode → ℕ → ℕ → ℕ
unfolding number
ad o a d = bit_or (bit_or (number o) (a * 2 ^ 8)) (d * 2 ^ 16)

-- The sign extension of `sd` to 32 bits leaves the word at the shift by 16.
unfoldable pub asd : Opcode → ℕ → ℤ → ℕ
unfolding number
asd o a sd = bit_or (bit_or (number o) (a * 2 ^ 8)) (to_u16 sd * 2 ^ 16)

abbrev branch_bias : ℕ
branch_bias = 0x8000

unfoldable pub aj : Opcode → ℕ → ℤ → ℕ
unfolding ad
aj o a offset = ad o a (to_u16 (pos branch_bias +ℤ offset))

unfoldable pub args : ℕ → ℕ → ℕ → ℕ → ℕ
args arg1 arg2 arg3 arg4 =
    bit_or (bit_or (bit_or arg1 (arg2 * 2 ^ 8)) (arg3 * 2 ^ 16)) (arg4 * 2 ^ 24)

abbrev pub opcode_field : ℕ → ℕ
opcode_field raw = raw % 2 ^ 8

abbrev pub a_field : ℕ → ℕ
a_field raw = raw / 2 ^ 8 % 2 ^ 8

abbrev pub b_field : ℕ → ℕ
b_field raw = raw / 2 ^ 24 % 2 ^ 8

abbrev pub c_field : ℕ → ℕ
c_field raw = raw / 2 ^ 16 % 2 ^ 8

abbrev pub d_field : ℕ → ℕ
d_field raw = raw / 2 ^ 16 % 2 ^ 16

unfoldable pub sd_field : ℕ → ℤ
sd_field raw = to_i16 (raw / 2 ^ 16 % 2 ^ 16)

unfoldable pub j_field : ℕ → ℤ
j_field raw = to_i16 (to_u16 (sub_ℕ (raw / 2 ^ 16) branch_bias))
