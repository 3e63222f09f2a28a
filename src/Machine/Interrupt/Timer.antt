-- ===== src/Machine/Interrupt/Timer.antt =====
-- machine/timer.cc, and the handler of the timer in threads/system.cc.
use cs270hw.Base.{
  ℕ, ◌+◌, ◌*◌, ◌%◌, ◌<◌, ◌≤◌, ◌≡◌, ◌∙◌, refl, Bool, true, false, Bool-cases, inl, inr, Option, some,
  ◌>>=◌, assert_passed, if◌then◌else◌, lt→ltb, arith,
}
use cs270hw.Threads.LinkedList.Queue.{enqueue}
use cs270hw.Machine.Interrupt.{
  Interrupt, IntType, is_idle, timer_int, schedule, set_yield_on_return, PendingInterrupt,
}
use cs270hw.Machine.Interrupt.Calls.{Calls, returns, schedules, asks_to_yield}
use cs270hw.Machine.Interrupt.Loop.{clock_limit}

-- `TimerTicks`
abbrev pub timer_ticks : ℕ
timer_ticks = 100

-- `Timer::TimeOfNextInterrupt`; `random` is what Random gives
abbrev pub time_of_next_interrupt : Bool → ℕ → ℕ
time_of_next_interrupt randomize random =
    if randomize then 1 + random % (timer_ticks * 2) else timer_ticks

-- `TimerInterruptHandler`
abbrev pub timer_interrupt_handler : {W : Type 0} → Interrupt W → Option (Interrupt W)
timer_interrupt_handler s = if is_idle s.status then some s else set_yield_on_return s

-- `Timer::Timer` and the head of `Timer::TimerExpired`; `handler` is the address of TimerHandler and
-- `this` that of the timer
abbrev pub start_timer : {W : Type 0} → ℕ → ℕ → Bool → ℕ → Interrupt W → Option (Interrupt W)
start_timer handler this randomize random =
    schedule handler this (time_of_next_interrupt randomize random) timer_int

-- `Timer::TimerExpired`, for the timer whose handler is TimerInterruptHandler
pub timer_expired : {W : Type 0} → ℕ → ℕ → Bool → ℕ → Interrupt W → Option (Interrupt W)
timer_expired handler this randomize random s = do
  s1 ← start_timer handler this randomize random s
  timer_interrupt_handler s1

soon :
    (randomize : Bool) (random : ℕ)
    → (0 < time_of_next_interrupt randomize random)
      × (time_of_next_interrupt randomize random ≤ 200)
soon true random = (omega arith, omega arith)
soon false random = (omega arith, omega arith)

module _ {W : Type 0} where
  schedule_lem :
      (handler arg from_now : ℕ) (type : IntType) (s : Interrupt W)
      → 0 < from_now
      → s.stats.total + from_now < 2147483648
      → (s' : Interrupt W) × (schedule handler arg from_now type s ≡ some s')
        × (s'.in_handler ≡ s.in_handler)
  unfolding schedule
  schedule_lem handler arg from_now type s later fits =
      let e = lt→ltb (s.stats.total + from_now) 2147483648 fits in
      let e' = lt→ltb 0 from_now later in
      let due = s.stats.total + from_now in
      let to_occur : PendingInterrupt = record {
        handler = handler;
        arg = arg;
        due = due;
        type = type;
      } in
      (record s { pending = enqueue (due, to_occur) s.pending }, simp (e, e') refl, refl)

  -- TimerExpired, called as the handler of an interrupt with the clock below its limit, returns, and
  -- does what handlers may: it schedules the timer's next interrupt and asks for a yield.
  pub timer_expired-Calls :
      (handler this : ℕ) (randomize : Bool) (random : ℕ) (s : Interrupt W)
      → s.in_handler ≡ true
      → s.stats.total < clock_limit
      → (s' : Interrupt W) × (timer_expired handler this randomize random s ≡ some s') × Calls s s'
  unfolding timer_expired set_yield_on_return
  timer_expired-Calls handler this randomize random s inside clock =
      let (lower, upper) = soon randomize random in
      let (s1, eq, same) =
        schedule_lem handler this (time_of_next_interrupt randomize random) timer_int s lower
          (omega arith) in
      elim (Bool-cases (is_idle s1.status)) [
        | inl y ↦ (s1, rw (eq, y) refl, schedules handler this _ timer_int eq returns)
        | inr n ↦
            let asked =
              assert_passed (s1.in_handler) (some (record s1 { yield_on_return = true }))
                (same ∙ inside) in
            (
              record s1 { yield_on_return = true },
              rw (eq, n) asked,
              schedules handler this _ timer_int eq (asks_to_yield asked returns),
            )
      ]
