-- ===== src/Ir/Opcodes.antt =====
-- Equality of IR opcodes and of IR types (vm/ir.hh): the Boolean tests on the enumerators' values
-- decide it.
use lambdachine.Common.{
  ◌≡◌, refl, sym, ap, ◌∙◌, ==_iff, true, arith, List, [], ◌∷◌, get_elem?, some,
}
use lambdachine.Ir.{Opcode, number, opcode_eq, IrType, type_number, type_eq}

opcodes : List Opcode
opcodes =
    Opcode.lt ∷ Opcode.ge ∷ Opcode.le ∷ Opcode.gt ∷ Opcode.eq ∷ Opcode.ne ∷ Opcode.ltu ∷ Opcode.geu
    ∷ Opcode.leu ∷ Opcode.gtu ∷ Opcode.eqret ∷ Opcode.eqinfo ∷ Opcode.neinfo ∷ Opcode.heapchk
    ∷ Opcode.nop ∷ Opcode.base ∷ Opcode.frame ∷ Opcode.ret ∷ Opcode.loop ∷ Opcode.phi
    ∷ Opcode.rename ∷ Opcode.kint ∷ Opcode.kword ∷ Opcode.kwordhi ∷ Opcode.kbaseo ∷ Opcode.bnot
    ∷ Opcode.band ∷ Opcode.bor ∷ Opcode.bxor ∷ Opcode.bshl ∷ Opcode.bshr ∷ Opcode.bsar ∷ Opcode.brol
    ∷ Opcode.bror ∷ Opcode.add ∷ Opcode.sub ∷ Opcode.mul ∷ Opcode.div ∷ Opcode.rem ∷ Opcode.neg
    ∷ Opcode.fref ∷ Opcode.fload ∷ Opcode.sload ∷ Opcode.iload ∷ Opcode.rload ∷ Opcode.pload
    ∷ Opcode.new ∷ Opcode.fstore ∷ Opcode.update ∷ Opcode.save ∷ []

types : List IrType
types =
    IrType.unknown ∷ IrType.void ∷ IrType.i64 ∷ IrType.u64 ∷ IrType.i32 ∷ IrType.u32 ∷ IrType.i16
    ∷ IrType.u16 ∷ IrType.i8 ∷ IrType.u8 ∷ IrType.f64 ∷ IrType.f32 ∷ IrType.chr ∷ IrType.clos
    ∷ IrType.info ∷ IrType.pc ∷ IrType.ptr ∷ []

opcode_at : (a : Opcode) → get_elem? opcodes (number a) ≡ some a
unfolding opcodes number
opcode_at Opcode.lt = refl
opcode_at _ = refl

type_at : (a : IrType) → get_elem? types (type_number a) ≡ some a
unfolding types type_number
type_at IrType.i64 = refl
type_at _ = refl

pub opcode_eq_sound : (a b : Opcode) → opcode_eq a b ≡ true → a ≡ b
unfolding opcode_eq
opcode_eq_sound a b h =
    let e : number a ≡ number b = (==_iff (number a) (number b)).0 h in
    let p : some a ≡ some b = sym (opcode_at a) ∙ ap (get_elem? opcodes) e ∙ opcode_at b in cc

pub opcode_eq_refl : (a : Opcode) → opcode_eq a a ≡ true
unfolding opcode_eq
opcode_eq_refl a = ground arith

pub type_eq_sound : (a b : IrType) → type_eq a b ≡ true → a ≡ b
unfolding type_eq
type_eq_sound a b h =
    let e : type_number a ≡ type_number b = (==_iff (type_number a) (type_number b)).0 h in
    let p : some a ≡ some b = sym (type_at a) ∙ ap (get_elem? types) e ∙ type_at b in cc

pub type_eq_refl : (a : IrType) → type_eq a a ≡ true
unfolding type_eq
type_eq_refl a = ground arith
