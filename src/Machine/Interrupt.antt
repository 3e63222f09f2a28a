-- ===== src/Machine/Interrupt.antt =====
-- machine/interrupt.h and interrupt.cc: the simulated interrupt hardware and its clock, as far as
-- `stats` keeps it. The list of pending interrupts is the queue that threads/list.cc implements. `W` is
-- the rest of the system, which only the calls of a `Kernel` change: the delayed load of the simulated
-- processor, the handler of an interrupt, and the yield of the current thread. `none` is a failed
-- ASSERT, a handler that does not return, a sum outside an `int`, or the end of the fuel.
pub mod Timer
pub mod Calls
pub mod Due
pub mod Loop
pub mod Clock
pub mod Rest
pub mod Level
mod Tests
use cs270hw.Base.{
  ℕ, zero, suc, ◌+◌, ◌-◌, Bool, true, false, ◌&&◌, Option, none, some, ◌>>=◌, ◌>>◌, List, [], ◌∷◌,
  ltb, not, assert, if◌then◌else◌,
}
use cs270hw.Threads.LinkedList.Queue.{Entry, enqueue, front, rest}

pub data IntStatus : Type 0 where
  int_off int_on : IntStatus

pub data MachineStatus : Type 0 where
  idle_mode system_mode user_mode : MachineStatus

pub data IntType : Type 0 where
  timer_int disk_int console_write_int console_read_int network_send_int network_recv_int : IntType

-- `PendingInterrupt`; its handler is the address of a function
pub record PendingInterrupt : Type 0 where
  pub handler : ℕ
  pub arg : ℕ
  pub due : ℕ
  pub type : IntType

-- the four clocks of `Statistics`
pub record Ticks : Type 0 where
  pub total : ℕ
  pub idle : ℕ
  pub system : ℕ
  pub user : ℕ

abbrev pub Pending : Type 0
Pending = List (Entry PendingInterrupt)

pub record Interrupt (W : Type 0) : Type 0 where
  pub level : IntStatus
  pub pending : Pending
  pub in_handler : Bool
  pub yield_on_return : Bool
  pub status : MachineStatus
  pub stats : Ticks
  pub world : W

-- What this component calls.
pub record Kernel (W : Type 0) : Type 0 where
  pub delayed_load : W → W
  pub call : ℕ → ℕ → Interrupt W → Option (Interrupt W)
  pub yield : Interrupt W → Option (Interrupt W)

abbrev pub is_off : IntStatus → Bool
is_off int_off = true
is_off int_on = false

abbrev pub is_idle : MachineStatus → Bool
is_idle idle_mode = true
is_idle system_mode = false
is_idle user_mode = false

abbrev pub is_system : MachineStatus → Bool
is_system idle_mode = false
is_system system_mode = true
is_system user_mode = false

abbrev pub is_timer : IntType → Bool
is_timer timer_int = true
is_timer disk_int = false
is_timer console_write_int = false
is_timer console_read_int = false
is_timer network_send_int = false
is_timer network_recv_int = false

abbrev pub is_nil : {A : Type 0} → List A → Bool
is_nil [] = true
is_nil (x ∷ xs) = false

-- an `int` sum that is in range
abbrev pub int_add : ℕ → ℕ → Option ℕ
int_add a b = if ltb (a + b) 2147483648 then some (a + b) else none

-- `SystemTick` and `UserTick`
abbrev pub system_tick : ℕ
system_tick = 10

abbrev pub user_tick : ℕ
user_tick = 1

module _ {W : Type 0} where
  -- `Interrupt::Interrupt`, with the statistics at zero
  abbrev pub new_interrupt : W → Interrupt W
  new_interrupt w = record {
    level = int_off;
    pending = [];
    in_handler = false;
    yield_on_return = false;
    status = system_mode;
    stats = record { total = 0; idle = 0; system = 0; user = 0 };
    world = w;
  }

  -- `Interrupt::ChangeLevel`
  abbrev pub change_level : IntStatus → Interrupt W → Interrupt W
  change_level now s = record s { level = now }

  -- `Interrupt::YieldOnReturn`
  pub set_yield_on_return : Interrupt W → Option (Interrupt W)
  set_yield_on_return s = do assert s.in_handler; some (record s { yield_on_return = true })

  -- `Interrupt::Schedule`
  pub schedule : ℕ → ℕ → ℕ → IntType → Interrupt W → Option (Interrupt W)
  schedule handler arg from_now type s = do
    due ← int_add s.stats.total from_now
    assert (ltb 0 from_now)
    let to_occur : PendingInterrupt = record {
      handler = handler;
      arg = arg;
      due = due;
      type = type;
    }
    some (record s { pending = enqueue (due, to_occur) s.pending })

  -- the clock of CheckIfDue, and of Idle: up to the time of the interrupt
  abbrev pub advance_clock : ℕ → Interrupt W → Interrupt W
  advance_clock due s = record s {
    stats = record (s.stats) { idle = s.stats.idle + (due - s.stats.total); total = due };
  }

  -- the head of OneTick
  pub tick : Interrupt W → Option (Interrupt W)
  tick s =
      if is_system s.status
      then (do
        total ← int_add s.stats.total system_tick
        system ← int_add s.stats.system system_tick
        some (record s { stats = record (s.stats) { total = total; system = system } }))
      else (do
        total ← int_add s.stats.total user_tick
        user ← int_add s.stats.user user_tick
        some (record s { stats = record (s.stats) { total = total; user = user } }))

module _ {W : Type 0} (k : Kernel W) where
  -- the call of the handler in CheckIfDue
  pub fire : PendingInterrupt → Interrupt W → Option (Bool × Interrupt W)
  fire e s = do
    s1 ←
        k.call e.handler e.arg
          (record s { world = k.delayed_load s.world; in_handler = true; status = system_mode })
    some (true, record s1 { status = s.status; in_handler = false })

  -- CheckIfDue behind the tests of the clock
  pub fire_unless_last : PendingInterrupt → ℕ → Interrupt W → Option (Bool × Interrupt W)
  fire_unless_last e due s =
      if is_idle s.status && is_timer e.type && is_nil s.pending
      then some (false, record s { pending = enqueue (due, e) s.pending })
      else fire e s

  -- CheckIfDue behind SortedRemove, which found this
  pub check_entry : Bool → Option (PendingInterrupt × ℕ) → Interrupt W → Option (Bool × Interrupt W)
  check_entry advance none s = some (false, s)
  check_entry advance (some (e, due)) s =
      if advance && ltb s.stats.total due
      then fire_unless_last e due (advance_clock due s)
      else if ltb s.stats.total due
      then some (false, record s { pending = enqueue (due, e) s.pending })
      else fire_unless_last e due s

  -- `Interrupt::CheckIfDue`: whether it fired off a handler
  pub check_if_due : Bool → Interrupt W → Option (Bool × Interrupt W)
  check_if_due advance s = do
    assert (is_off s.level)
    check_entry advance (front s.pending) (record s { pending = rest s.pending })

  -- `while (CheckIfDue(FALSE));`
  pub run_due : ℕ → Interrupt W → Option (Interrupt W)
  run_due zero s = none
  run_due (suc fuel) s = do
    (fired, s1) ← check_if_due false s
    let more = run_due fuel s1
    if fired then more else some s1

  -- the end of OneTick
  pub yield_if_asked : MachineStatus → Interrupt W → Option (Interrupt W)
  yield_if_asked old s =
      if s.yield_on_return
      then (do
        s1 ← k.yield (record s { yield_on_return = false; status = system_mode })
        some (record s1 { status = old }))
      else some s

  -- `Interrupt::OneTick`
  pub one_tick : ℕ → Interrupt W → Option (Interrupt W)
  one_tick fuel s = do
    s1 ← tick s
    s2 ← run_due fuel (change_level int_off s1)
    yield_if_asked s.status (change_level int_on s2)

  -- `Interrupt::SetLevel`: the old level
  pub set_level : ℕ → IntStatus → Interrupt W → Option (IntStatus × Interrupt W)
  set_level fuel int_off s = some (s.level, change_level int_off s)
  set_level fuel int_on s = do
    assert (not s.in_handler)
    let ticked = one_tick fuel (change_level int_on s)
    s1 ← if is_off s.level then ticked else some (change_level int_on s)
    some (s.level, s1)

  -- `Interrupt::Enable`
  pub enable : ℕ → Interrupt W → Option (Interrupt W)
  enable fuel s = do (_, s1) ← set_level fuel int_on s; some s1

  -- `Interrupt::Idle`; `none` in its result is Halt
  pub idle : ℕ → Interrupt W → Option (Option (Interrupt W))
  idle fuel s = do
    (fired, s1) ← check_if_due true (record s { status = idle_mode })
    let others = run_due fuel s1
    if fired
        then (do
          s2 ← others
          some (some (record s2 { yield_on_return = false; status = system_mode })))
        else some none
