-- ===== src/Machine/Interrupt/Clock.antt =====
-- What a tick and an idle machine do to the clock and the pending interrupts.
use cs270hw.Base.{
  ℕ, ◌+◌, ◌≤◌, ◌<◌, ◌≡◌, ◌∙◌, ap, refl, false, inl, inr, lt→ltb, Bool-cases, if◌then◌else◌, length,
  arith, some,
}
use cs270hw.Threads.LinkedList.Queue.{IsSorted}
use cs270hw.Machine.Interrupt.{
  Interrupt, Ticks, int_off, int_on, change_level, Kernel, is_idle, is_system, tick, one_tick,
  yield_if_asked, int_add, system_tick, user_tick,
}
use cs270hw.Machine.Interrupt.Due.{due_count, due_count_le_length}
use cs270hw.Machine.Interrupt.Loop.{clock_limit, IsHandled, IsReady, Settled, run_due_lem}

-- the length of a tick
abbrev pub tick_of : {W : Type 0} → Interrupt W → ℕ
tick_of s = if is_system s.status then system_tick else user_tick

int_add_lem : (a b : ℕ) → a + b < 2147483648 → int_add a b ≡ some (a + b)
int_add_lem a b h = rw (lt→ltb (a + b) 2147483648 h) refl

module _ {W : Type 0} where
  tick_le : (s : Interrupt W) → tick_of s ≤ system_tick
  tick_le s = ground arith

  tick_lem :
      (s : Interrupt W)
      → s.stats.total < clock_limit
      → s.stats.system < clock_limit
      → s.stats.user < clock_limit
      → (t : Ticks) × (tick s ≡ some (record s { stats = t }))
        × (t.total ≡ s.stats.total + tick_of s)
  unfolding tick
  tick_lem s total system user = elim (Bool-cases (is_system s.status)) [
    | inl y ↦
        let e = int_add_lem s.stats.total system_tick (omega arith) in
        let e' = int_add_lem s.stats.system system_tick (omega arith) in
        (
          record (s.stats) {
            total = s.stats.total + system_tick;
            system = s.stats.system + system_tick;
          },
          simp (y, e, e') refl,
          simp y refl,
        )
    | inr n ↦
        let e = int_add_lem s.stats.total user_tick (omega arith) in
        let e' = int_add_lem s.stats.user user_tick (omega arith) in
        (
          record (s.stats) { total = s.stats.total + user_tick; user = s.stats.user + user_tick },
          simp (n, e, e') refl,
          simp n refl,
        )
  ]

  -- An interrupt stays due only in an idle machine.
  Settled-busy :
      (s : Interrupt W)
      → is_idle s.status ≡ false
      → Settled s
      → due_count s.stats.total s.pending ≡ 0
  Settled-busy s busy (inl none_due) = none_due
  Settled-busy s busy (inr (at_rest, _)) = cc

module _ {W : Type 0} (k : Kernel W) (handled : IsHandled k) where
  -- OneTick in a machine that is not idle, with no handler running, the pending interrupts in order, the
  -- clocks below their limit and handlers that return, comes with more fuel than interrupts are pending
  -- to the test of yieldOnReturn, in a state where interrupts are enabled, the clock is a tick later, no
  -- pending interrupt is due, and the pending interrupts are in order.
  pub one_tick-Settled :
      (fuel : ℕ) (s : Interrupt W)
      → IsSorted s.pending
      → s.in_handler ≡ false
      → is_idle s.status ≡ false
      → s.stats.total + system_tick < clock_limit
      → s.stats.system < clock_limit
      → s.stats.user < clock_limit
      → length s.pending < fuel
      → (s' : Interrupt W) × (one_tick k fuel s ≡ yield_if_asked k s.status s')
        × (s'.level ≡ int_on)
        × (s'.stats.total ≡ s.stats.total + tick_of s)
        × (due_count s'.stats.total s'.pending ≡ 0)
        × IsSorted s'.pending
  unfolding one_tick
  one_tick-Settled fuel s sorted no_handler busy total system user enough =
      let (t, ticked, later) = tick_lem s (omega arith) system user in
      let s1 = record s { stats = t; level = int_off } in
      let ready : IsReady s1 = record {
        level = refl;
        no_handler = no_handler;
        sorted = sorted;
        clock = (let le = tick_le s in omega arith);
      } in
      let count = due_count_le_length t.total s.pending in
      let (s2, ran, same, settled) = run_due_lem k handled fuel s1 ready (omega arith) in
      (
        change_level int_on s2,
        rw (ticked, ran) refl,
        refl,
        ap (λ x. x.total) same.stats ∙ later,
        Settled-busy s2 (ap is_idle (same.status) ∙ busy) settled,
        same.ready.sorted,
      )
