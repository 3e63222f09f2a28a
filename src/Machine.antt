-- ===== src/Machine.antt =====
-- machine/: the simulated MIPS workstation: its state, and the commands that run on it.
-- A register and a word of memory are 32-bit patterns, numbers below 2^32; main memory is a list of
-- bytes. The host is little endian. A trap hands the machine, as RaiseException leaves it, to the
-- kernel's ExceptionHandler: every caller returns right after it, so it ends the command.
pub mod Word
pub mod Commands
pub mod Mult
pub mod Translate
pub mod Memory
pub mod Instr
pub mod Effect
pub mod Step
pub mod Interrupt
mod Tests
use cs270hw.Base.{
  ℕ, zero, suc, ◌+◌, ◌%◌, ◌^◌, Bool, Option, none, some, List, get_elem?, set, length, ltb,
  if◌then◌else◌, store,
}

-- `TranslationEntry`; its field `use` is `used` here
pub record Entry : Type 0 where
  pub virtual_page : ℕ
  pub physical_page : ℕ
  pub valid : Bool
  pub read_only : Bool
  pub used : Bool
  pub dirty : Bool

-- `ExceptionType`, without NoException
pub data Exception : Type 0 where
  syscall page_fault read_only_error bus_error address_error overflow illegal_instr : Exception

pub record Machine : Type 0 where
  pub main_memory : List ℕ
  pub registers : List ℕ
  pub tlb : Option (List Entry)
  pub page_table : Option (List Entry)
  pub page_table_size : ℕ

-- `stop` is a failed ASSERT, an access outside an array, or a host fault.
pub data Outcome (A : Type 0) : Type 0 where
  done : A → Machine → Outcome A
  trap : Exception → Machine → Outcome A
  stop : Outcome A

abbrev pub Cmd : Type 0 → Type 0
Cmd A = Machine → Outcome A

abbrev pub pure : {A : Type 0} → A → Cmd A
pure = done

module _ {A B : Type 0} where
  abbrev pub and_then : Outcome A → (A → Cmd B) → Outcome B
  and_then (done a m) k = k a m
  and_then (trap e m) k = trap e m
  and_then stop k = stop

  infixl 5 ◌>>=◌ ◌>>◌
  abbrev pub ◌>>=◌ : Cmd A → (A → Cmd B) → Cmd B
  ◌>>=◌ c k m = and_then (c m) k

  abbrev pub ◌>>◌ : Cmd A → Cmd B → Cmd B
  ◌>>◌ c d m = and_then (c m) (λ _. d)

abbrev pub fail : {A : Type 0} → Cmd A
fail m = stop

abbrev pub guard : Bool → Cmd (Unit {0})
guard b m = if b then done tt m else stop

-- `registers[r]`
unfoldable pub reg : ℕ → Cmd ℕ
reg r m = elim (get_elem? m.registers r) [ none ↦ stop | some v ↦ done v m ]

-- `registers[r] = v`
unfoldable pub set_reg : ℕ → ℕ → Cmd (Unit {0})
set_reg r v m = elim (store m.registers r v) [
  | none ↦ stop
  | some rs ↦ done tt (record m { registers = rs })
]

abbrev pub num_total_regs : ℕ
num_total_regs = 40

abbrev pub r31 : ℕ
r31 = 31

abbrev pub hi_reg : ℕ
hi_reg = 32

abbrev pub lo_reg : ℕ
lo_reg = 33

abbrev pub pc_reg : ℕ
pc_reg = 34

abbrev pub next_pc_reg : ℕ
next_pc_reg = 35

abbrev pub prev_pc_reg : ℕ
prev_pc_reg = 36

abbrev pub load_reg : ℕ
load_reg = 37

abbrev pub load_value_reg : ℕ
load_value_reg = 38

abbrev pub bad_vaddr_reg : ℕ
bad_vaddr_reg = 39

-- `Machine::DelayedLoad` of mipssim.cc
unfoldable pub delayed_load : ℕ → ℕ → Cmd (Unit {0})
unfolding reg set_reg
delayed_load next_reg next_value = do
  target ← reg load_reg
  value ← reg load_value_reg
  set_reg target value
  set_reg load_reg next_reg
  set_reg load_value_reg next_value
  set_reg 0 0

-- `Machine::RaiseException` of machine.cc, up to the call of the kernel
unfoldable pub raise_exception : {A : Type 0} → Exception → ℕ → Cmd A
unfolding set_reg delayed_load
raise_exception e bad_vaddr = do set_reg bad_vaddr_reg bad_vaddr; delayed_load 0 0; trap e

-- `Machine::ReadRegister`, for a number that is not negative
unfoldable pub read_register : ℕ → Cmd ℕ
unfolding reg
read_register num = do guard (ltb num num_total_regs); reg num

-- `Machine::WriteRegister`
unfoldable pub write_register : ℕ → ℕ → Cmd (Unit {0})
unfolding set_reg
write_register num value = do guard (ltb num num_total_regs); set_reg num value
