-- ===== src/Opcodes/Code.antt =====
-- `OpcodeOperations` of Core/include/Opcodes.h, as numbers; they are written `Code.beq`.
use multicore_proccessor.Common.{ℕ}

abbrev pub add : ℕ
add = 0

abbrev pub sub : ℕ
sub = 1

abbrev pub and : ℕ
and = 2

abbrev pub or : ℕ
or = 3

abbrev pub xor : ℕ
xor = 4

abbrev pub mul : ℕ
mul = 5

abbrev pub sll : ℕ
sll = 6

abbrev pub sra : ℕ
sra = 7

abbrev pub srl : ℕ
srl = 8

abbrev pub beq : ℕ
beq = 9

abbrev pub bne : ℕ
bne = 10

abbrev pub blt : ℕ
blt = 11

abbrev pub bgt : ℕ
bgt = 12

abbrev pub ble : ℕ
ble = 13

abbrev pub bge : ℕ
bge = 14

abbrev pub jal : ℕ
jal = 15

abbrev pub lw : ℕ
lw = 16

abbrev pub sw : ℕ
sw = 17

abbrev pub halt : ℕ
halt = 20
