-- ===== src/Machine/Memory.antt =====
-- `Machine::ReadMem` and `Machine::WriteMem` of machine/translate.cc. A `char` of the host is signed.
mod Bytes
mod Again
pub mod RoundTrip
use cs270hw.Base.{
  ℕ, suc, ◌+◌, ◌-◌, ◌*◌, ◌/◌, ◌%◌, ◌^◌, Bool, true, false, Option, none, some, List, get_elem?,
  store, ltb, leb, ◌==◌, if◌then◌else◌,
}
use cs270hw.Machine.{
  Machine, Outcome, done, trap, stop, Cmd, ◌>>=◌, ◌>>◌, fail, pure, raise_exception,
}
use cs270hw.Machine.Translate.{Translation, fault, address, translate}

-- `mainMemory[i]`
unfoldable pub byte : ℕ → Cmd ℕ
byte i m = elim (get_elem? m.main_memory i) [ none ↦ stop | some b ↦ done b m ]

unfoldable pub set_byte : ℕ → ℕ → Cmd (Unit {0})
set_byte i b m = elim (store m.main_memory i b) [
  | none ↦ stop
  | some bytes ↦ done tt (record m { main_memory = bytes })
]

-- `data = machine->mainMemory[physicalAddress]`: a signed `char` becomes an `int`
abbrev pub sign_extend : ℕ → ℕ
sign_extend b = if leb 128 b then 2 ^ 32 - 256 + b else b

-- the switch on the size in ReadMem
unfoldable pub load : ℕ → ℕ → Cmd ℕ
load size i =
    if size == 1
    then (do b0 ← byte i; pure (sign_extend b0))
    else if size == 2
    then (do b0 ← byte i; b1 ← byte (suc i); pure (b0 + 2 ^ 8 * b1))
    else if size == 4
    then (do
      b0 ← byte i
      b1 ← byte (suc i)
      b2 ← byte (suc (suc i))
      b3 ← byte (suc (suc (suc i)))
      pure (b0 + 2 ^ 8 * b1 + 2 ^ 16 * b2 + 2 ^ 24 * b3))
    else fail

-- the switch on the size in WriteMem
unfoldable pub save : ℕ → ℕ → ℕ → Cmd (Unit {0})
save size i value =
    if size == 1
    then set_byte i (value % 2 ^ 8)
    else if size == 2
    then (do set_byte i (value % 2 ^ 8); set_byte (suc i) (value / 2 ^ 8 % 2 ^ 8))
    else if size == 4
    then (do
      set_byte i (value % 2 ^ 8)
      set_byte (suc i) (value / 2 ^ 8 % 2 ^ 8)
      set_byte (suc (suc i)) (value / 2 ^ 16 % 2 ^ 8)
      set_byte (suc (suc (suc i))) (value / 2 ^ 24 % 2 ^ 8))
    else fail

-- A failed translation traps, and its caller returns.
unfoldable pub or_trap : ℕ → Translation → Cmd ℕ
or_trap va (fault e) = raise_exception e va
or_trap va (address pa) = pure pa

unfoldable pub read_mem : ℕ → ℕ → Cmd ℕ
read_mem va size = do t ← translate va size false; pa ← or_trap va t; load size pa

unfoldable pub write_mem : ℕ → ℕ → ℕ → Cmd (Unit {0})
write_mem va size value = do t ← translate va size true; pa ← or_trap va t; save size pa value
