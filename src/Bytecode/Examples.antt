-- ===== src/Bytecode/Examples.antt =====
-- Tests of the instruction encodings, and the theorems about them at concrete instructions.
use lambdachine.Common.{◌<◌, ◌^◌, ◌≡◌, refl, some, arith}
use lambdachine.Bytecode.{
  Opcode, abc, args, of_number, format, InsFormat, opcode_field, a_field, b_field, c_field,
}
use lambdachine.Bytecode.Encoding.{fields-abc}

-- ADDRR r1, r2, r3: the destination stands above the opcode, b in the top byte.
addrr_word : abc Opcode.addrr 1 2 3 ≡ 0x0203_0113
unfolding abc
addrr_word = refl

args_word : args 1 2 3 4 ≡ 0x0403_0201
unfolding args
args_word = refl

eval_format : format Opcode.eval ≡ InsFormat.other
unfolding format
eval_format = refl

fields-abc_example :
    (of_number (opcode_field (abc Opcode.addrr 1 2 3)) ≡ some Opcode.addrr)
    × (a_field (abc Opcode.addrr 1 2 3) ≡ 1)
    × (b_field (abc Opcode.addrr 1 2 3) ≡ 2)
    × (c_field (abc Opcode.addrr 1 2 3) ≡ 3)
    × (abc Opcode.addrr 1 2 3 < 2 ^ 32)
fields-abc_example = fields-abc Opcode.addrr 1 2 3 (omega arith) (omega arith) (omega arith)
