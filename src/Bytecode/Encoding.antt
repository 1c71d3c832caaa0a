-- ===== src/Bytecode/Encoding.antt =====
-- Encoding and decoding of instruction words (vm/bytecode.hh).
use lambdachine.Common.{ℕ, ◌+◌, ◌*◌, ◌/◌, ◌%◌, ◌^◌, ◌<◌, ◌≡◌, refl, some, arith}
use lambdachine.Common.Bits.{bit_or-add, bit_or_between}
use lambdachine.Common.Int.{ℤ, pos, ◌+ℤ◌, IsI16, sub_ℕ, to_u16, to_i16, to_u16-lt, to_i16-to_u16}
use lambdachine.Bytecode.{
  Opcode, number, of_number, abc, ad, asd, aj, opcode_field, a_field, b_field, c_field, d_field,
  sd_field, j_field,
}

number-lt : (o : Opcode) → number o < 2 ^ 8
unfolding number
number-lt Opcode.islt = omega arith
number-lt _ = omega arith

of_number-number : (o : Opcode) → of_number (number o) ≡ some o
unfolding of_number number
of_number-number Opcode.islt = refl
of_number-number _ = refl

-- Fields that do not overlap are joined by a sum.
abc_sum :
    (o : Opcode) (a b c : ℕ)
    → a < 2 ^ 8
    → b < 2 ^ 8
    → c < 2 ^ 8
    → abc o a b c ≡ number o + a * 2 ^ 8 + c * 2 ^ 16 + b * 2 ^ 24
unfolding abc
abc_sum o a b c ha hb hc =
    let n = number o in
    let hn : n < 2 ^ 8 = number-lt o in
    let hna : n + a * 2 ^ 8 < 2 ^ 16 = omega arith in
    let hna' : n + a * 2 ^ 8 < 2 ^ 24 = omega arith in
    let e : b * 2 ^ 24 ≡ b * 2 ^ 8 * 2 ^ 16 = omega arith in
    rw
      (
        bit_or-add 8 n a hn,
        bit_or-add 24 (n + a * 2 ^ 8) b hna',
        e,
        bit_or_between 16 8 (n + a * 2 ^ 8) c b hna hc,
      )
      (omega arith)

ad_sum : (o : Opcode) (a d : ℕ) → a < 2 ^ 8 → ad o a d ≡ number o + a * 2 ^ 8 + d * 2 ^ 16
unfolding ad
ad_sum o a d ha =
    let n = number o in
    let hn : n < 2 ^ 8 = number-lt o in
    let hna : n + a * 2 ^ 8 < 2 ^ 16 = omega arith in
    rw (bit_or-add 8 n a hn) (bit_or-add 16 (n + a * 2 ^ 8) d hna)

-- An instruction put together by `abc` from an opcode and three bytes gives back the opcode and
-- each of the bytes, and fits in 32 bits.
pub fields-abc :
    (o : Opcode) (a b c : ℕ)
    → a < 2 ^ 8
    → b < 2 ^ 8
    → c < 2 ^ 8
    → (of_number (opcode_field (abc o a b c)) ≡ some o)
      × (a_field (abc o a b c) ≡ a)
      × (b_field (abc o a b c) ≡ b)
      × (c_field (abc o a b c) ≡ c)
      × (abc o a b c < 2 ^ 32)
fields-abc o a b c ha hb hc =
    let hn : number o < 2 ^ 8 = number-lt o in
    let e : (number o + a * 2 ^ 8 + c * 2 ^ 16 + b * 2 ^ 24) % 2 ^ 8 ≡ number o = omega arith in
    rw (abc_sum o a b c ha hb hc)
      (rw e (of_number-number o), omega arith, omega arith, omega arith, omega arith)

-- An instruction put together by `ad` from an opcode, a byte and a 16-bit number gives them back,
-- and fits in 32 bits.
pub fields-ad :
    (o : Opcode) (a d : ℕ)
    → a < 2 ^ 8
    → d < 2 ^ 16
    → (of_number (opcode_field (ad o a d)) ≡ some o)
      × (a_field (ad o a d) ≡ a)
      × (d_field (ad o a d) ≡ d)
      × (ad o a d < 2 ^ 32)
fields-ad o a d ha hd =
    let hn : number o < 2 ^ 8 = number-lt o in
    let e : (number o + a * 2 ^ 8 + d * 2 ^ 16) % 2 ^ 8 ≡ number o = omega arith in
    rw (ad_sum o a d ha) (rw e (of_number-number o), omega arith, omega arith, omega arith)

upper_half : (o : Opcode) (a d : ℕ) → a < 2 ^ 8 → d < 2 ^ 16 → ad o a d / 2 ^ 16 ≡ d
upper_half o a d ha hd =
    let hn : number o < 2 ^ 8 = number-lt o in rw (ad_sum o a d ha) (omega arith)

-- The biased branch offset, before it is decoded.
unbias : (z : ℤ) → IsI16 z → to_i16 (to_u16 (sub_ℕ (to_u16 (pos 0x8000 +ℤ z)) 0x8000)) ≡ z
unfolding to_i16 to_u16 ◌+ℤ◌
unbias z h = ground arith

signed_operand :
    (o : Opcode) (a : ℕ) (z : ℤ)
    → a < 2 ^ 8
    → IsI16 z
    → to_i16 (ad o a (to_u16 z) / 2 ^ 16 % 2 ^ 16) ≡ z
signed_operand o a z ha hz =
    let hs : to_u16 z < 2 ^ 16 = to_u16-lt z in
    let s : to_u16 z % 2 ^ 16 ≡ to_u16 z = omega arith in
    rw (upper_half o a (to_u16 z) ha hs, s) (to_i16-to_u16 z hz)

-- A branch instruction gives back its byte and its signed 16-bit offset, and an instruction with a
-- signed 16-bit operand gives back its byte and the operand, negative ones included.
pub fields_signed :
    (o : Opcode) (a : ℕ) (z : ℤ)
    → a < 2 ^ 8
    → IsI16 z
    → (j_field (aj o a z) ≡ z)
      × (sd_field (asd o a z) ≡ z)
      × (a_field (aj o a z) ≡ a)
      × (a_field (asd o a z) ≡ a)
unfolding j_field sd_field aj asd ad
fields_signed o a z ha hz =
    let d = to_u16 (pos 0x8000 +ℤ z) in
    let hd : d < 2 ^ 16 = to_u16-lt (pos 0x8000 +ℤ z) in
    let hs : to_u16 z < 2 ^ 16 = to_u16-lt z in
    (
      rw (upper_half o a d ha hd) (unbias z hz),
      signed_operand o a z ha hz,
      (fields-ad o a d ha hd).1,
      (fields-ad o a (to_u16 z) ha hs).1,
    )
