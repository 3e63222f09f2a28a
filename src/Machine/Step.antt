-- ===== src/Machine/Step.antt =====
-- `Machine::OneInstruction` of machine/mipssim.cc: one step of the processor. Each function below is one
-- stretch of its switch, in the order of the source, and hands the other operations to the next one;
-- `none` is the default, which fails its ASSERT.
-- Sums, differences and shifts of `int`s wrap around, as the compiled code does.
pub mod Cases
pub mod Complete
use cs270hw.Base.{
  ℕ, suc, ◌+◌, ◌-◌, ◌*◌, ◌/◌, ◌%◌, ◌^◌, Bool, true, false, not, ◌&&◌, ◌||◌, Option, none, some,
  if◌then◌else◌, ltb, leb, ◌==◌, bit_and, bit_or, bit_xor,
}
use cs270hw.Machine.{
  Machine, Cmd, Outcome, done, trap, stop, and_then, pure, fail, guard, ◌>>=◌, ◌>>◌, reg, set_reg,
  delayed_load, raise_exception, address_error, overflow, illegal_instr, syscall, r31, hi_reg,
  lo_reg, pc_reg, next_pc_reg, prev_pc_reg, load_reg, load_value_reg,
}
use cs270hw.Machine.Word.{
  word, sign_bit, add, sub, complement, is_neg, has_sign, less, shl, asr, quotient, remainder,
}
use cs270hw.Machine.Mult.{HiLo, mult}
use cs270hw.Machine.Memory.{read_mem, write_mem}
use cs270hw.Machine.Effect.{
  Effect, go_on, load_later, put, branch, link, aligned, merge_lwl, merge_lwr, merge_swl, merge_swr,
}
use cs270hw.Machine.Instr.{
  Instruction, decode, Op, op_add, op_addi, op_addiu, op_addu, op_and, op_andi, op_beq, op_bgezal,
  op_bgez, op_bgtz, op_blez, op_bltzal, op_bltz, op_bne, op_div, op_divu, op_jal, op_j, op_jalr,
  op_jr, op_lb, op_lbu, op_lh, op_lhu, op_lui, op_lw, op_lwl, op_lwr, op_mfhi, op_mflo, op_mthi,
  op_mtlo, op_mult, op_multu, op_nor, op_or, op_ori, op_sb, op_sh, op_sll, op_sllv, op_slt, op_slti,
  op_sltiu, op_sltu, op_sra, op_srav, op_srl, op_srlv, op_sub, op_subu, op_sw, op_swl, op_swr,
  op_syscall, op_xor, op_xori, op_res, op_unimp,
}

-- OP_SW to the default
unfoldable exec_stores : Op → Instruction → ℕ → Option (Cmd Effect)
exec_stores op_sw i pc =
    some (do a ← reg i.rs; b ← reg i.rt; write_mem (add a i.extra) 4 b; go_on pc)
exec_stores op_swl i pc = some (do
  a ← reg i.rs
  guard (add a i.extra % 4 == 0)
  v ← read_mem (add a i.extra / 4 * 4) 4
  b ← reg i.rt
  write_mem (add a i.extra / 4 * 4) 4 (merge_swl (add a i.extra % 4) v b)
  go_on pc)
exec_stores op_swr i pc = some (do
  a ← reg i.rs
  guard (add a i.extra % 4 == 0)
  v ← read_mem (add a i.extra / 4 * 4) 4
  b ← reg i.rt
  write_mem (add a i.extra / 4 * 4) 4 (merge_swr (add a i.extra % 4) v b)
  go_on pc)
exec_stores op_syscall i pc = some (raise_exception syscall 0)
exec_stores op_xor i pc = some (do a ← reg i.rs; b ← reg i.rt; put pc i.rd (bit_xor a b))
exec_stores op_xori i pc = some (do a ← reg i.rs; put pc i.rt (bit_xor a (i.extra % 2 ^ 16)))
exec_stores op_res i pc = some (raise_exception illegal_instr 0)
exec_stores op_unimp i pc = some (raise_exception illegal_instr 0)
exec_stores op i pc = none

-- OP_SLT to OP_SUBU
unfoldable exec_shifts : Op → Instruction → ℕ → Option (Cmd Effect)
exec_shifts op_slt i pc =
    some (do a ← reg i.rs; b ← reg i.rt; put pc i.rd (if less a b then 1 else 0))
exec_shifts op_slti i pc = some (do a ← reg i.rs; put pc i.rt (if less a i.extra then 1 else 0))
exec_shifts op_sltiu i pc = some (do a ← reg i.rs; put pc i.rt (if ltb a i.extra then 1 else 0))
exec_shifts op_sltu i pc =
    some (do a ← reg i.rs; b ← reg i.rt; put pc i.rd (if ltb a b then 1 else 0))
exec_shifts op_sra i pc = some (do b ← reg i.rt; put pc i.rd (asr b i.extra))
exec_shifts op_srav i pc = some (do a ← reg i.rs; b ← reg i.rt; put pc i.rd (asr b (a % 2 ^ 5)))
exec_shifts op_srl i pc = some (do b ← reg i.rt; put pc i.rd (asr b i.extra))
exec_shifts op_srlv i pc = some (do a ← reg i.rs; b ← reg i.rt; put pc i.rd (asr b (a % 2 ^ 5)))
exec_shifts op_sub i pc = some (do
  a ← reg i.rs
  b ← reg i.rt
  if has_sign (bit_xor a b) && has_sign (bit_xor a (sub a b))
      then raise_exception overflow 0
      else put pc i.rd (sub a b))
exec_shifts op_subu i pc = some (do a ← reg i.rs; b ← reg i.rt; put pc i.rd (sub a b))
exec_shifts op i pc = exec_stores op i pc

-- OP_MFHI to OP_SLLV
unfoldable exec_moves : Op → Instruction → ℕ → Option (Cmd Effect)
exec_moves op_mfhi i pc = some (do a ← reg hi_reg; put pc i.rd a)
exec_moves op_mflo i pc = some (do a ← reg lo_reg; put pc i.rd a)
exec_moves op_mthi i pc = some (do a ← reg i.rs; put pc hi_reg a)
exec_moves op_mtlo i pc = some (do a ← reg i.rs; put pc lo_reg a)
exec_moves op_mult i pc = some (do
  a ← reg i.rs
  b ← reg i.rt
  set_reg hi_reg (mult a b true).hi
  set_reg lo_reg (mult a b true).lo
  go_on pc)
exec_moves op_multu i pc = some (do
  a ← reg i.rs
  b ← reg i.rt
  set_reg hi_reg (mult a b false).hi
  set_reg lo_reg (mult a b false).lo
  go_on pc)
exec_moves op_nor i pc = some (do a ← reg i.rs; b ← reg i.rt; put pc i.rd (complement (bit_or a b)))
exec_moves op_or i pc = some (do a ← reg i.rs; put pc i.rd (bit_or a a))
exec_moves op_ori i pc = some (do a ← reg i.rs; put pc i.rt (bit_or a (i.extra % 2 ^ 16)))
exec_moves op_sb i pc =
    some (do a ← reg i.rs; b ← reg i.rt; write_mem (add a i.extra) 1 b; go_on pc)
exec_moves op_sh i pc =
    some (do a ← reg i.rs; b ← reg i.rt; write_mem (add a i.extra) 2 b; go_on pc)
exec_moves op_sll i pc = some (do b ← reg i.rt; put pc i.rd (shl b i.extra))
exec_moves op_sllv i pc = some (do a ← reg i.rs; b ← reg i.rt; put pc i.rd (shl b (a % 2 ^ 5)))
exec_moves op i pc = exec_shifts op i pc

-- OP_LB to OP_LWR
unfoldable exec_loads : Op → Instruction → ℕ → Option (Cmd Effect)
exec_loads op_lb i pc = some (do
  a ← reg i.rs
  v ← read_mem (add a i.extra) 1
  load_later pc i.rt (if v / 2 ^ 7 % 2 == 1 then bit_or v (word - 2 ^ 8) else v % 2 ^ 8))
exec_loads op_lbu i pc =
    some (do a ← reg i.rs; v ← read_mem (add a i.extra) 1; load_later pc i.rt (v % 2 ^ 8))
exec_loads op_lh i pc = some (do
  a ← reg i.rs
  aligned (add a i.extra) 2
  v ← read_mem (add a i.extra) 2
  load_later pc i.rt (if v / 2 ^ 15 % 2 == 1 then bit_or v (word - 2 ^ 16) else v % 2 ^ 16))
exec_loads op_lhu i pc = some (do
  a ← reg i.rs
  aligned (add a i.extra) 2
  v ← read_mem (add a i.extra) 2
  load_later pc i.rt (v % 2 ^ 16))
exec_loads op_lui i pc = some (put pc i.rt (shl i.extra 16))
exec_loads op_lw i pc = some (do
  a ← reg i.rs
  aligned (add a i.extra) 4
  v ← read_mem (add a i.extra) 4
  load_later pc i.rt v)
exec_loads op_lwl i pc = some (do
  a ← reg i.rs
  guard (add a i.extra % 4 == 0)
  v ← read_mem (add a i.extra) 4
  l ← reg load_reg
  old ← (if l == i.rt then reg load_value_reg else reg i.rt)
  load_later pc i.rt (merge_lwl (add a i.extra % 4) old v))
exec_loads op_lwr i pc = some (do
  a ← reg i.rs
  guard (add a i.extra % 4 == 0)
  v ← read_mem (add a i.extra) 4
  l ← reg load_reg
  old ← (if l == i.rt then reg load_value_reg else reg i.rt)
  load_later pc i.rt (merge_lwr (add a i.extra % 4) old v))
exec_loads op i pc = exec_moves op i pc

-- OP_DIV to OP_JR
unfoldable exec_jumps : Op → Instruction → ℕ → Option (Cmd Effect)
exec_jumps op_div i pc = some (do
  a ← reg i.rs
  b ← reg i.rt
  guard (not (a == sign_bit && b == word - 1))
  set_reg lo_reg (if b == 0 then 0 else quotient a b)
  set_reg hi_reg (if b == 0 then 0 else remainder a b)
  go_on pc)
exec_jumps op_divu i pc = some (do
  a ← reg i.rs
  b ← reg i.rt
  set_reg lo_reg (if b == 0 then 0 else a / b)
  set_reg hi_reg (if b == 0 then 0 else a % b)
  go_on pc)
exec_jumps op_jal i pc =
    some (do link r31; go_on (bit_or (bit_and pc (word - 2 ^ 28)) (shl i.extra 2)))
exec_jumps op_j i pc = some (go_on (bit_or (bit_and pc (word - 2 ^ 28)) (shl i.extra 2)))
exec_jumps op_jalr i pc = some (do link i.rd; a ← reg i.rs; go_on a)
exec_jumps op_jr i pc = some (do a ← reg i.rs; go_on a)
exec_jumps op i pc = exec_loads op i pc

-- OP_BEQ to OP_BNE
unfoldable exec_branches : Op → Instruction → ℕ → Option (Cmd Effect)
exec_branches op_beq i pc = some (do a ← reg i.rs; b ← reg i.rt; branch (a == b) pc i.extra)
exec_branches op_bgezal i pc =
    some (do link r31; a ← reg i.rs; branch (not (has_sign a)) pc i.extra)
exec_branches op_bgez i pc = some (do a ← reg i.rs; branch (not (has_sign a)) pc i.extra)
exec_branches op_bgtz i pc = some (do a ← reg i.rs; branch (less 0 a) pc i.extra)
exec_branches op_blez i pc = some (do a ← reg i.rs; branch (not (less 0 a)) pc i.extra)
exec_branches op_bltzal i pc = some (do link r31; a ← reg i.rs; branch (has_sign a) pc i.extra)
exec_branches op_bltz i pc = some (do a ← reg i.rs; branch (has_sign a) pc i.extra)
exec_branches op_bne i pc = some (do a ← reg i.rs; b ← reg i.rt; branch (not (a == b)) pc i.extra)
exec_branches op i pc = exec_jumps op i pc

-- OP_ADD to OP_ANDI
pub exec_sums : Op → Instruction → ℕ → Option (Cmd Effect)
exec_sums op_add i pc = some (do
  a ← reg i.rs
  b ← reg i.rt
  if not (has_sign (bit_xor a b)) && has_sign (bit_xor a (add a b))
      then raise_exception overflow 0
      else put pc i.rd (add a b))
exec_sums op_addi i pc = some (do
  a ← reg i.rs
  if not (has_sign (bit_xor a i.extra)) && has_sign (bit_xor i.extra (add a i.extra))
      then raise_exception overflow 0
      else put pc i.rt (add a i.extra))
exec_sums op_addiu i pc = some (do a ← reg i.rs; put pc i.rt (add a i.extra))
exec_sums op_addu i pc = some (do a ← reg i.rs; b ← reg i.rt; put pc i.rd (add a b))
exec_sums op_and i pc = some (do a ← reg i.rs; b ← reg i.rt; put pc i.rd (bit_and a b))
exec_sums op_andi i pc = some (do a ← reg i.rs; put pc i.rt (bit_and a (i.extra % 2 ^ 16)))
exec_sums op i pc = exec_branches op i pc

-- the end of OneInstruction: the delayed load, and the program counters
pub complete : Effect → Cmd (Unit {0})
complete e = do
  delayed_load e.next_load_reg e.next_load_value
  pc ← reg pc_reg
  set_reg prev_pc_reg pc
  next ← reg next_pc_reg
  set_reg pc_reg next
  set_reg next_pc_reg e.pc_after

-- `instr->Decode()`
unfoldable decoded : Option Instruction → Cmd Instruction
decoded none = fail
decoded (some i) = pure i

-- the case of the switch that was taken, or its default
unfoldable cased : Option (Cmd Effect) → Cmd Effect
cased none = fail
cased (some c) = c

unfoldable one_instruction : Cmd (Unit {0})
one_instruction = do
  pc ← reg pc_reg
  raw ← read_mem pc 4
  i ← decoded (decode raw)
  next ← reg next_pc_reg
  e ← cased (exec_sums i.op i (add next 4))
  complete e
