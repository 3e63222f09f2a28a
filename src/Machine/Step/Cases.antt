-- ===== src/Machine/Step/Cases.antt =====
-- The switch of OneInstruction has a case for each operation that Decode gives.
use cs270hw.Base.{ℕ, ◌<◌, ◌≡◌, refl, true, some}
use cs270hw.Machine.{Cmd}
use cs270hw.Machine.Effect.{Effect}
use cs270hw.Machine.Instr.{Op, op_rfe, special, bcond, Instruction, decode}
use cs270hw.Machine.Instr.Total.{in_switch, decode_total}
use cs270hw.Machine.Step.{
  exec_sums, exec_branches, exec_jumps, exec_loads, exec_moves, exec_shifts, exec_stores,
}

-- The switch has a case for such an operation.
exec_sums-some :
    (op : Op) (i : Instruction) (pc : ℕ)
    → in_switch op ≡ true
    → (c : Cmd Effect) × (exec_sums op i pc ≡ some c)
unfolding exec_sums exec_branches exec_jumps exec_loads exec_moves exec_shifts exec_stores
exec_sums-some op_rfe i pc h = cc
exec_sums-some special i pc h = cc
exec_sums-some bcond i pc h = cc
exec_sums-some op i pc h = (_, refl)

-- Every word decodes, to an operation for which the switch of OneInstruction has a case, so that it
-- never reaches its default, with register numbers of the 32 general registers.
pub decode_lem :
    (value pc : ℕ)
    → (i : Instruction) × (c : Cmd Effect) × (decode value ≡ some i)
      × (exec_sums i.op i pc ≡ some c)
      × (i.rs < 32)
      × (i.rt < 32)
      × (i.rd < 32)
decode_lem value pc =
    let (i, found, there, rs, rt, rd) = decode_total value in
    let (c, taken) = exec_sums-some i.op i pc there in (i, c, found, taken, rs, rt, rd)
