-- ===== src/Machine/Interrupt/Loop.antt =====
-- The loop of OneTick and Idle over the interrupts that are due.
use cs270hw.Base.{
  ℕ, zero, suc, ◌<◌, ◌≡◌, ◌∙◌, ap, sym, refl, subst, Bool, true, false, ◌&&◌, inl, inr, ◌⊎◌, ltb,
  Bool-cases, [], ◌∷◌, arith, some, assert_passed,
}
use cs270hw.Threads.LinkedList.Queue.{Entry, enqueue, IsSorted, enqueue-IsSorted, front, rest}
use cs270hw.Machine.Interrupt.{
  Interrupt, Pending, PendingInterrupt, int_off, system_mode, Kernel, is_off, is_idle, is_timer,
  is_nil, fire, fire_unless_last, check_entry, check_if_due, run_due,
}
use cs270hw.Machine.Interrupt.Due.{due_count, due_count-enqueue, due_count-later}
use cs270hw.Machine.Interrupt.Calls.{Calls, Calls-Keeps}

-- a clock that leaves room for the times of new interrupts in an `int`
abbrev pub clock_limit : ℕ
clock_limit = 2000000000

-- What the handlers of a kernel do: called with interrupts disabled, by the clock's limit, each of
-- them returns.
abbrev pub IsHandled : {W : Type 0} → Kernel W → Type 0
IsHandled {W} k =
    (handler arg : ℕ) (s : Interrupt W)
    → s.level ≡ int_off
    → s.in_handler ≡ true
    → s.stats.total < clock_limit
    → (s' : Interrupt W) × (k.call handler arg s ≡ some s') × Calls s s'

-- The interrupts that are left are not due; or the machine is idle, and there is only the timer's.
abbrev pub Settled : {W : Type 0} → Interrupt W → Type 0
Settled s =
    (due_count s.stats.total s.pending ≡ 0)
    ⊎ ((is_idle s.status ≡ true)
        × ((x : Entry PendingInterrupt) × (s.pending ≡ x ∷ []) × (is_timer (x.1).type ≡ true)))

module _ {W : Type 0} where
  -- a state before a round
  pub record IsReady (s : Interrupt W) : Type 0 where
    pub level : s.level ≡ int_off
    pub no_handler : s.in_handler ≡ false
    pub sorted : IsSorted s.pending
    pub clock : s.stats.total < clock_limit

  -- what rounds keep
  pub record Same (s s' : Interrupt W) : Type 0 where
    pub stats : s'.stats ≡ s.stats
    pub status : s'.status ≡ s.status
    pub ready : IsReady s'

  -- what a round comes to: it fired an interrupt that was due, or none is left to be fired
  abbrev pub Round : Interrupt W → Pending → Bool × Interrupt W → Type 0
  Round s ps (true, s') =
      Same s s' × (suc (due_count s.stats.total s'.pending) ≡ due_count s.stats.total ps)
  Round s ps (false, s') = Same s s' × Settled s'

  pub with_pending :
      (s : Interrupt W) (xs : Pending)
      → IsReady s
      → IsSorted xs
      → Same s (record s { pending = xs })
  with_pending s xs ready sorted = record {
    stats = refl;
    status = refl;
    ready = record {
      level = ready.level;
      no_handler = ready.no_handler;
      sorted = sorted;
      clock = ready.clock;
    };
  }

  Same-trans : {s s1 s2 : Interrupt W} → Same s s1 → Same s1 s2 → Same s s2
  Same-trans a b = record {
    stats = b.stats ∙ a.stats;
    status = b.status ∙ a.status;
    ready = b.ready;
  }

-- the only interrupt left, the timer's, put back by the idle machine
is_last :
    (b c : Bool) (xs : Pending) → (b && c && is_nil xs) ≡ true → (b ≡ true) × (c ≡ true) × (xs ≡ [])
is_last true true [] h = (refl, refl, refl)
is_last true true (x ∷ xs) h = cc
is_last true false xs h = cc
is_last false c xs h = cc

pub check_if_due_off :
    {W : Type 0} (k : Kernel W) (advance : Bool) (s : Interrupt W)
    → s.level ≡ int_off
    → check_if_due k advance s
      ≡ check_entry k advance (front s.pending) (record s { pending = rest s.pending })
unfolding check_if_due
check_if_due_off k advance s off = assert_passed (is_off s.level) _ (ap is_off off)

module _ {W : Type 0} (k : Kernel W) (handled : IsHandled k) where
  pub fire_lem :
      (e : PendingInterrupt) (s : Interrupt W)
      → IsReady s
      → (s' : Interrupt W) × (fire k e s ≡ some (true, s'))
        × Same s s'
        × (due_count s.stats.total s'.pending ≡ due_count s.stats.total s.pending)
  unfolding fire
  fire_lem e s ready =
      let s0 = record s {
        world = k.delayed_load s.world;
        in_handler = true;
        status = system_mode;
      } in
      let (s1, eq, calls) = handled e.handler e.arg s0 ready.level refl ready.clock in
      let kept = Calls-Keeps calls in
      (
        record s1 { status = s.status; in_handler = false },
        rw eq refl,
        record {
          stats = kept.stats;
          status = refl;
          ready = record {
            level = kept.level ready.level;
            no_handler = refl;
            sorted = kept.sorted ready.sorted;
            clock = subst (λ x. x.total < clock_limit) (sym (kept.stats)) ready.clock;
          };
        },
        kept.due,
      )

  unless_last_lem :
      (e : PendingInterrupt) (due : ℕ) (xs : Pending) (s : Interrupt W)
      → IsReady s
      → IsSorted xs
      → ltb s.stats.total due ≡ false
      → (r : Bool × Interrupt W) × (fire_unless_last k e due (record s { pending = xs }) ≡ some r)
        × Round s ((due, e) ∷ xs) r
  unfolding fire_unless_last
  unless_last_lem e due xs s ready sorted now =
      let same = with_pending s xs ready sorted in
      elim (Bool-cases (is_idle s.status && is_timer e.type && is_nil xs)) [
        | inl last ↦
            let (idle, timer, empty) = is_last (is_idle s.status) (is_timer e.type) xs last in
            (
              (false, record s { pending = enqueue (due, e) xs }),
              rw last refl,
              (
                with_pending s (enqueue (due, e) xs) ready (enqueue-IsSorted (due, e) xs sorted),
                inr (idle, ((due, e), ap (enqueue (due, e)) empty, timer)),
              ),
            )
        | inr more ↦
            let (s', eq, kept, left) = fire_lem e (record s { pending = xs }) same.ready in
            ((true, s'), rw more eq, (Same-trans same kept, rw now (omega arith)))
      ]

  check_entry_lem :
      (s : Interrupt W) (ps : Pending)
      → IsReady s
      → IsSorted ps
      → (r : Bool × Interrupt W) × (check_entry k false (front ps) (record s { pending = rest ps })
          ≡ some r)
        × Round s ps r
  unfolding check_entry
  check_entry_lem s [] ready sorted =
      ((false, record s { pending = [] }), refl, (with_pending s [] ready tt, inl refl))
  check_entry_lem s ((due, e) ∷ xs) ready sorted = elim (Bool-cases (ltb s.stats.total due)) [
    | inl later ↦
        let in_order = enqueue-IsSorted (due, e) xs sorted.1 in
        let none_due = due_count-later s.stats.total (due, e) xs later sorted in
        (
          (false, record s { pending = enqueue (due, e) xs }),
          rw later refl,
          (
            with_pending s (enqueue (due, e) xs) ready in_order,
            inl (due_count-enqueue s.stats.total (due, e) xs ∙ none_due),
          ),
        )
    | inr now ↦
        let (r, eq, round) = unless_last_lem e due xs s ready sorted.1 now in (r, rw now eq, round)
  ]

  pub check_if_due_lem :
      (s : Interrupt W)
      → IsReady s
      → (r : Bool × Interrupt W) × (check_if_due k false s ≡ some r) × Round s s.pending r
  check_if_due_lem s ready =
      let (r, eq, round) = check_entry_lem s s.pending ready ready.sorted in
      (r, check_if_due_off k false s ready.level ∙ eq, round)

  pub run_due_lem :
      (fuel : ℕ) (s : Interrupt W)
      → IsReady s
      → due_count s.stats.total s.pending < fuel
      → (s' : Interrupt W) × (run_due k fuel s ≡ some s') × Same s s' × Settled s'
  unfolding run_due
  run_due_lem zero s ready enough = absurd (omega arith)
  run_due_lem (suc fuel) s ready enough =
      let (r, eq, round) = check_if_due_lem s ready in next r eq round (run_due_lem fuel)
    where
      next :
          (r : Bool × Interrupt W)
          → check_if_due k false s ≡ some r
          → Round s s.pending r
          → ((s1 : Interrupt W)
              → IsReady s1
              → due_count s1.stats.total s1.pending < fuel
              → (s' : Interrupt W) × (run_due k fuel s1 ≡ some s') × Same s1 s' × Settled s')
          → (s' : Interrupt W) × (run_due k (suc fuel) s ≡ some s') × Same s s' × Settled s'
      next (false, s1) eq (same, settled) again = (s1, rw eq refl, same, settled)
      next (true, s1) eq (same, left) again =
          let now : due_count s1.stats.total s1.pending ≡ due_count s.stats.total s1.pending =
            ap (λ x. due_count x.total s1.pending) (same.stats) in
          let (s', eq', same', settled) = again s1 same.ready (omega arith) in
          (s', rw eq eq', Same-trans same same', settled)
