-- ===== src/Ir.antt =====
-- The IR of traces (vm/ir.hh, vm/ir.cc): opcodes and their modes, types, references, instructions.
-- Bit fields of an instruction are the fields of a record; a reference is its 16-bit number.
pub mod Opcodes
use lambdachine.Common.{
  ℕ, ◌+◌, ◌*◌, ◌^◌, ◌-◌, ◌%◌, ◌/◌, Bool, true, false, not, ◌&&◌, ◌||◌, ltb, leb, ◌==◌,
  if◌then◌else◌,
}

pub data Opcode : Type 0 where
  lt ge le gt eq ne ltu geu leu gtu eqret eqinfo neinfo heapchk nop base frame ret loop : Opcode
  phi rename kint kword kwordhi kbaseo bnot band bor bxor bshl bshr bsar brol bror add sub : Opcode
  mul div rem neg fref fload sload iload rload pload new fstore update save : Opcode

-- The value of the enumerator.
unfoldable pub number : Opcode → ℕ
number lt = 0
number ge = 1
number le = 2
number gt = 3
number eq = 4
number ne = 5
number ltu = 6
number geu = 7
number leu = 8
number gtu = 9
number eqret = 10
number eqinfo = 11
number neinfo = 12
number heapchk = 13
number nop = 14
number base = 15
number frame = 16
number ret = 17
number loop = 18
number phi = 19
number rename = 20
number kint = 21
number kword = 22
number kwordhi = 23
number kbaseo = 24
number bnot = 25
number band = 26
number bor = 27
number bxor = 28
number bshl = 29
number bshr = 30
number bsar = 31
number brol = 32
number bror = 33
number add = 34
number sub = 35
number mul = 36
number div = 37
number rem = 38
number neg = 39
number fref = 40
number fload = 41
number sload = 42
number iload = 43
number rload = 44
number pload = 45
number new = 46
number fstore = 47
number update = 48
number save = 49

unfoldable pub opcode_eq : Opcode → Opcode → Bool
unfolding number
opcode_eq a b = number a == number b

-- The flags of an opcode: N and R, C, A, L, S, G.
pub data Kind : Type 0 where
  normal commutative alloc load store guard : Kind

pub data Operand : Type 0 where
  ref lit cst unused : Operand

unfoldable pub kind : Opcode → Kind
kind lt = guard
kind ge = guard
kind le = guard
kind gt = guard
kind eq = guard
kind ne = guard
kind ltu = guard
kind geu = guard
kind leu = guard
kind gtu = guard
kind eqret = guard
kind eqinfo = guard
kind neinfo = guard
kind heapchk = store
kind nop = normal
kind base = normal
kind frame = store
kind ret = store
kind loop = normal
kind phi = normal
kind rename = store
kind kint = normal
kind kword = normal
kind kwordhi = normal
kind kbaseo = normal
kind bnot = normal
kind band = commutative
kind bor = commutative
kind bxor = commutative
kind bshl = normal
kind bshr = normal
kind bsar = normal
kind brol = normal
kind bror = normal
kind add = commutative
kind sub = normal
kind mul = commutative
kind div = normal
kind rem = normal
kind neg = normal
kind fref = normal
kind fload = load
kind sload = load
kind iload = load
kind rload = load
kind pload = load
kind new = alloc
kind fstore = store
kind update = store
kind save = store

unfoldable pub left_operand : Opcode → Operand
left_operand lt = ref
left_operand ge = ref
left_operand le = ref
left_operand gt = ref
left_operand eq = ref
left_operand ne = ref
left_operand ltu = ref
left_operand geu = ref
left_operand leu = ref
left_operand gtu = ref
left_operand eqret = ref
left_operand eqinfo = ref
left_operand neinfo = ref
left_operand heapchk = lit
left_operand nop = unused
left_operand base = lit
left_operand frame = lit
left_operand ret = lit
left_operand loop = unused
left_operand phi = ref
left_operand rename = ref
left_operand kint = cst
left_operand kword = cst
left_operand kwordhi = cst
left_operand kbaseo = cst
left_operand bnot = ref
left_operand band = ref
left_operand bor = ref
left_operand bxor = ref
left_operand bshl = ref
left_operand bshr = ref
left_operand bsar = ref
left_operand brol = ref
left_operand bror = ref
left_operand add = ref
left_operand sub = ref
left_operand mul = ref
left_operand div = ref
left_operand rem = ref
left_operand neg = ref
left_operand fref = ref
left_operand fload = ref
left_operand sload = lit
left_operand iload = ref
left_operand rload = unused
left_operand pload = ref
left_operand new = ref
left_operand fstore = ref
left_operand update = ref
left_operand save = lit

unfoldable pub right_operand : Opcode → Operand
right_operand lt = ref
right_operand ge = ref
right_operand le = ref
right_operand gt = ref
right_operand eq = ref
right_operand ne = ref
right_operand ltu = ref
right_operand geu = ref
right_operand leu = ref
right_operand gtu = ref
right_operand eqret = ref
right_operand eqinfo = ref
right_operand neinfo = ref
right_operand heapchk = unused
right_operand nop = unused
right_operand base = lit
right_operand frame = lit
right_operand ret = lit
right_operand loop = unused
right_operand phi = ref
right_operand rename = lit
right_operand kint = unused
right_operand kword = unused
right_operand kwordhi = unused
right_operand kbaseo = unused
right_operand bnot = unused
right_operand band = ref
right_operand bor = ref
right_operand bxor = ref
right_operand bshl = ref
right_operand bshr = ref
right_operand bsar = ref
right_operand brol = ref
right_operand bror = ref
right_operand add = ref
right_operand sub = ref
right_operand mul = ref
right_operand div = ref
right_operand rem = ref
right_operand neg = unused
right_operand fref = lit
right_operand fload = unused
right_operand sload = lit
right_operand iload = unused
right_operand rload = unused
right_operand pload = ref
right_operand new = lit
right_operand fstore = ref
right_operand update = ref
right_operand save = lit

-- `(mode & IRM_S) == IRM_N`: neither a store nor a load nor an allocation.
abbrev pub kind_is_pure : Kind → Bool
kind_is_pure alloc = false
kind_is_pure load = false
kind_is_pure store = false
kind_is_pure _ = true

abbrev pub operand_is_ref : Operand → Bool
operand_is_ref ref = true
operand_is_ref _ = false

pub data IrType : Type 0 where
  unknown void i64 u64 i32 u32 i16 u16 i8 u8 f64 f32 chr clos info pc ptr : IrType

unfoldable pub type_number : IrType → ℕ
type_number unknown = 0
type_number void = 1
type_number i64 = 2
type_number u64 = 3
type_number i32 = 4
type_number u32 = 5
type_number i16 = 6
type_number u16 = 7
type_number i8 = 8
type_number u8 = 9
type_number f64 = 10
type_number f32 = 11
type_number chr = 12
type_number clos = 13
type_number info = 14
type_number pc = 15
type_number ptr = 16

unfoldable pub type_eq : IrType → IrType → Bool
unfolding type_number
type_eq a b = type_number a == type_number b

-- The masks kOpIsInteger, kOpIsSigned and kOpIsFloat.
unfoldable pub is_signed : IrType → Bool
is_signed i64 = true
is_signed i32 = true
is_signed i16 = true
is_signed i8 = true
is_signed _ = false

unfoldable pub is_integer : IrType → Bool
unfolding is_signed
is_integer chr = true
is_integer u64 = true
is_integer u32 = true
is_integer u16 = true
is_integer u8 = true
is_integer t = is_signed t

unfoldable pub is_float : IrType → Bool
is_float f32 = true
is_float f64 = true
is_float _ = false

-- The byte `t` of an instruction: its type, and the flags IRT_MARK, IRT_ISPHI and IRT_GUARD.
pub record Tag : Type 0 where
  pub type : IrType
  pub mark : Bool
  pub phi : Bool
  pub guarded : Bool

abbrev pub plain : IrType → Tag
plain t = record { type = t; mark = false; phi = false; guarded = false }

-- An instruction before register allocation. A literal keeps its 32 bits in the two operands.
pub record Ins : Type 0 where
  pub opcode : Opcode
  pub tag : Tag
  pub op1 : ℕ
  pub op2 : ℕ
  pub prev : ℕ

abbrev pub op12 : Ins → ℕ
op12 ins = ins.op1 + ins.op2 * 2 ^ 16

abbrev pub ref_bias : ℕ
ref_bias = 0x8000

abbrev pub ref_base : ℕ
ref_base = ref_bias

abbrev pub ref_first : ℕ
ref_first = ref_bias + 1

abbrev pub ref_ind : ℕ
ref_ind = ref_bias - 1

abbrev pub is_lit : ℕ → Bool
is_lit r = ltb r ref_bias

-- A tagged reference; the flag kWritten is a field of its own.
pub record Tref : Type 0 where
  pub ref_of : ℕ
  pub written : Bool
  pub tag : Tag

abbrev pub tref : ℕ → Tag → Tref
tref r t = record { ref_of = r; written = false; tag = t }

-- `TRef()`, all bits 0.
abbrev pub no_tref : Tref
no_tref = tref 0 (plain unknown)

abbrev pub tag_is_zero : Tag → Bool
tag_is_zero t = type_eq t.type unknown && not t.mark && not t.phi && not t.guarded

abbrev pub is_none : Tref → Bool
is_none t = t.ref_of == 0 && not t.written && tag_is_zero t.tag

abbrev pub mark_written : Tref → Tref
mark_written t = record t { written = true }
