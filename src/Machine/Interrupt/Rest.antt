-- ===== src/Machine/Interrupt/Rest.antt =====
-- The idle machine: the time of the next interrupt comes, or the machine halts.
use cs270hw.Base.{
  ℕ, ◌≤◌, ◌<◌, max, ◌≡◌, ◌∙◌, ap, refl, Bool, true, false, ◌&&◌, inl, inr, ◌⊎◌, ltb, ltb→lt,
  Bool-cases, [], ◌∷◌, length, arith, some, none,
}
use cs270hw.Threads.LinkedList.Queue.{enqueue, IsSorted, front, rest}
use cs270hw.Machine.Interrupt.{
  Interrupt, Pending, PendingInterrupt, system_mode, idle_mode, Kernel, is_idle, is_timer, is_nil,
  fire_unless_last, check_entry, idle, advance_clock,
}
use cs270hw.Machine.Interrupt.Due.{due_count, due_count_le_length}
use cs270hw.Machine.Interrupt.Loop.{
  clock_limit, IsHandled, IsReady, Settled, check_if_due_off, fire_lem, with_pending, run_due_lem,
}

-- Nothing is left to wait for: no interrupt, or only the timer's.
abbrev pub only_timer : Pending → Bool
only_timer [] = true
only_timer ((due, e) ∷ xs) = is_timer e.type && is_nil xs

-- the time of the next interrupt
abbrev pub next_due : ℕ → Pending → ℕ
next_due now [] = now
next_due now ((due, e) ∷ xs) = max now due

left :
    {W : Type 0} (s : Interrupt W)
    → Settled s
    → (due_count s.stats.total s.pending ≡ 0) ⊎ (only_timer s.pending ≡ true)
left s (inl none_due) = inl none_due
left s (inr (at_rest, (x, one, timer))) = inr (rw (one, timer) refl)

module _ {W : Type 0} (k : Kernel W) where
  halts_lem :
      (fuel : ℕ) (s : Interrupt W) (ps : Pending)
      → is_idle s.status ≡ true
      → only_timer ps ≡ true
      → (s' : Interrupt W) × (check_entry k true (front ps) (record s { pending = rest ps })
          ≡ some (false, s'))
  unfolding check_entry fire_unless_last
  halts_lem fuel s [] at_rest last = (record s { pending = [] }, refl)
  halts_lem fuel s ((due, e) ∷ xs) at_rest last = elim (Bool-cases (ltb s.stats.total due)) [
    | inl y ↦
        let s1 = advance_clock due (record s { pending = xs }) in
        (record s1 { pending = enqueue (due, e) xs }, simp (y, at_rest, last) refl)
    | inr n ↦ (record s { pending = enqueue (due, e) xs }, simp (n, at_rest, last) refl)
  ]

  module _ (handled : IsHandled k) where
    -- the interrupt that is not the last one
    fires_lem :
        (e : PendingInterrupt) (due : ℕ) (s : Interrupt W)
        → IsReady s
        → (is_timer e.type && is_nil s.pending) ≡ false
        → (s' : Interrupt W) × (fire_unless_last k e due s ≡ some (true, s'))
          × IsReady s'
          × (s'.stats.total ≡ s.stats.total)
          × (s'.status ≡ s.status)
          × (due_count s'.stats.total s'.pending ≤ length s.pending)
    unfolding fire_unless_last
    fires_lem e due s ready more =
        let (s', eq, same, left) = fire_lem k handled e s ready in
        let now = ap (λ x. x.total) same.stats in
        let count = due_count_le_length s.stats.total s.pending in
        let test : (is_idle s.status && is_timer e.type && is_nil s.pending) ≡ false =
          ground (arith, more) in
        (s', rw test eq, same.ready, now, same.status, rw now (omega arith))

    wakes_lem :
        (s : Interrupt W) (ps : Pending)
        → IsReady s
        → IsSorted ps
        → only_timer ps ≡ false
        → next_due s.stats.total ps < clock_limit
        → (s' : Interrupt W) × (check_entry k true (front ps) (record s { pending = rest ps })
            ≡ some (true, s'))
          × IsReady s'
          × (s'.stats.total ≡ next_due s.stats.total ps)
          × (s'.status ≡ s.status)
          × (due_count s'.stats.total s'.pending ≤ length ps)
    unfolding check_entry fire_unless_last
    wakes_lem s [] ready sorted more clock = cc
    wakes_lem s ((due, e) ∷ xs) ready (_, sorted) more clock =
        elim (Bool-cases (ltb s.stats.total due)) [
          | inl y ↦
              let late = ltb→lt s.stats.total due y in
              let s1 = advance_clock due (record s { pending = xs }) in
              let ready1 : IsReady s1 = record {
                level = ready.level;
                no_handler = ready.no_handler;
                sorted = sorted;
                clock = omega arith;
              } in
              let (s', eq, ready', now, status, count) = fires_lem e due s1 ready1 more in
              (s', simp y eq, ready', now ∙ (omega arith), status, omega arith)
          | inr n ↦
              let s1 = record s { pending = xs } in
              let same = with_pending s xs ready sorted in
              let (s', eq, ready', now, status, count) = fires_lem e due s1 same.ready more in
              (s', simp n eq, ready', now ∙ (ground (arith, n)), status, omega arith)
        ]

    -- Idle, called with interrupts disabled, no handler running and the pending interrupts in order,
    -- returns or halts by enough fuel, if every handler returns and the clock stays below its limit. It
    -- halts when no interrupt is pending or only the timer's; else the clock comes to the time of the
    -- next interrupt, or stays if that is past, the status is SystemMode, no yield is asked for, and no
    -- pending interrupt is due or only the timer's is left.
    pub idle-advances_or_halts :
        (fuel : ℕ) (s : Interrupt W)
        → IsReady s
        → next_due s.stats.total s.pending < clock_limit
        → length s.pending < fuel
        → (only_timer s.pending ≡ true → idle k fuel s ≡ some none)
          × (only_timer s.pending ≡ false
              → (s' : Interrupt W) × (idle k fuel s ≡ some (some s'))
                × (s'.stats.total ≡ next_due s.stats.total s.pending)
                × (s'.status ≡ system_mode)
                × (s'.yield_on_return ≡ false)
                × ((due_count s'.stats.total s'.pending ≡ 0) ⊎ (only_timer s'.pending ≡ true)))
    unfolding idle
    idle-advances_or_halts fuel s ready clock enough = (
      λ last.
          let (s', eq) = halts_lem fuel (record s { status = idle_mode }) s.pending refl last in
          let checked = check_if_due_off k true (record s { status = idle_mode }) ready.level in
          rw (checked, eq) refl,
      λ more.
          let (s', eq, ready', now, at_rest, count) =
            wakes_lem (record s { status = idle_mode }) s.pending
              (record {
                level = ready.level;
                no_handler = ready.no_handler;
                sorted = ready.sorted;
                clock = ready.clock;
              })
              ready.sorted more clock in
          let checked = check_if_due_off k true (record s { status = idle_mode }) ready.level in
          let (s2, ran, same, settled) = run_due_lem k handled fuel s' ready' (omega arith) in
          (
            record s2 { yield_on_return = false; status = system_mode },
            rw (checked, eq, ran) refl,
            ap (λ x. x.total) same.stats ∙ now,
            refl,
            refl,
            left s2 settled,
          ),
    )
