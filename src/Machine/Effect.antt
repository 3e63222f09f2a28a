-- ===== src/Machine/Effect.antt =====
-- What an operation of `Machine::OneInstruction` leaves for its end, and the code that operations share.
use cs270hw.Base.{ℕ, ◌-◌, ◌%◌, ◌^◌, Bool, if◌then◌else◌, ◌==◌, bit_and, bit_or}
use cs270hw.Machine.{
  Cmd, pure, ◌>>=◌, ◌>>◌, reg, set_reg, raise_exception, address_error, next_pc_reg,
}
use cs270hw.Machine.Word.{word, add, shl, asr}

-- what the switch leaves in `pcAfter`, `nextLoadReg` and `nextLoadValue`
pub record Effect : Type 0 where
  pub pc_after : ℕ
  pub next_load_reg : ℕ
  pub next_load_value : ℕ

-- the end of a case without a load
abbrev pub go_on : ℕ → Cmd Effect
go_on pc = pure (record { pc_after = pc; next_load_reg = 0; next_load_value = 0 })

abbrev pub load_later : ℕ → ℕ → ℕ → Cmd Effect
load_later pc r v = pure (record { pc_after = pc; next_load_reg = r; next_load_value = v })

-- `registers[r] = v; break;`
abbrev pub put : ℕ → ℕ → ℕ → Cmd Effect
put pc r v = do set_reg r v; go_on pc

-- `registers[NextPCReg] + IndexToAddr(extra)`, where the branch is taken
abbrev pub branch : Bool → ℕ → ℕ → Cmd Effect
branch taken pc extra =
    if taken then (do next ← reg next_pc_reg; go_on (add next (shl extra 2))) else go_on pc

-- `registers[R31] = registers[NextPCReg] + 4`
abbrev pub link : ℕ → Cmd (Unit {0})
link r = do next ← reg next_pc_reg; set_reg r (add next 4)

-- the merges of LWL, LWR, SWL and SWR, by `tmp & 0x3`
abbrev pub merge_lwl : ℕ → ℕ → ℕ → ℕ
merge_lwl k old value =
    if k == 0
    then value
    else if k == 1
    then bit_or (old % 2 ^ 8) (shl value 8)
    else if k == 2
    then bit_or (old % 2 ^ 16) (shl value 16)
    else bit_or (old % 2 ^ 24) (shl value 24)

abbrev pub merge_lwr : ℕ → ℕ → ℕ → ℕ
merge_lwr k old value =
    if k == 0
    then bit_or (bit_and old (word - 2 ^ 8)) (asr value 24 % 2 ^ 8)
    else if k == 1
    then bit_or (bit_and old (word - 2 ^ 16)) (asr value 16 % 2 ^ 16)
    else if k == 2
    then bit_or (bit_and old (word - 2 ^ 24)) (asr value 8 % 2 ^ 24)
    else value

abbrev pub merge_swl : ℕ → ℕ → ℕ → ℕ
merge_swl k value r =
    if k == 0
    then r
    else if k == 1
    then bit_or (bit_and value (word - 2 ^ 24)) (asr r 8 % 2 ^ 24)
    else if k == 2
    then bit_or (bit_and value (word - 2 ^ 16)) (asr r 16 % 2 ^ 16)
    else bit_or (bit_and value (word - 2 ^ 8)) (asr r 24 % 2 ^ 8)

abbrev pub merge_swr : ℕ → ℕ → ℕ → ℕ
merge_swr k value r =
    if k == 0
    then bit_or (value % 2 ^ 24) (shl r 24)
    else if k == 1
    then bit_or (value % 2 ^ 16) (shl r 16)
    else if k == 2
    then bit_or (value % 2 ^ 8) (shl r 8)
    else r

-- the test of the address before ReadMem in LH, LHU and LW
abbrev pub aligned : ℕ → ℕ → Cmd (Unit {0})
aligned tmp size = if tmp % size == 0 then pure tt else raise_exception address_error tmp
