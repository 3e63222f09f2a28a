-- ===== src/Machine/Interrupt/Calls.antt =====
-- What the handler of an interrupt may do, and what that leaves as it is.
use cs270hw.Base.{
  ℕ, ◌+◌, ◌≡◌, ◌∙◌, ap, sym, subst, refl, true, inl, inr, ltb, Bool-cases, arith, some,
  assert->>-eq-some,
}
use cs270hw.Threads.LinkedList.Queue.{enqueue, IsSorted, enqueue-IsSorted}
use cs270hw.Machine.Interrupt.{
  Interrupt, PendingInterrupt, IntType, int_off, schedule, set_yield_on_return, change_level,
}
use cs270hw.Machine.Interrupt.Due.{due_count, due_count-enqueue}

module _ {W : Type 0} where
  -- The calls of a handler, one after the other, between its changes of the rest of the system: it
  -- schedules interrupts, asks for a yield, and keeps interrupts disabled.
  pub data Calls : Interrupt W → Interrupt W → Type 0 where
    returns : {s : Interrupt W} → Calls s s
    schedules :
        {s s1 s2 : Interrupt W} (handler arg from_now : ℕ) (type : IntType)
        → schedule handler arg from_now type s ≡ some s1
        → Calls s1 s2
        → Calls s s2
    asks_to_yield :
        {s s1 s2 : Interrupt W} → set_yield_on_return s ≡ some s1 → Calls s1 s2 → Calls s s2
    disables : {s s2 : Interrupt W} → Calls (change_level int_off s) s2 → Calls s s2
    works : {s s2 : Interrupt W} (w : W) → Calls (record s { world = w }) s2 → Calls s s2

  -- what they keep
  pub record Keeps (s s' : Interrupt W) : Type 0 where
    pub stats : s'.stats ≡ s.stats
    pub status : s'.status ≡ s.status
    pub level : s.level ≡ int_off → s'.level ≡ int_off
    pub due : due_count s.stats.total s'.pending ≡ due_count s.stats.total s.pending
    pub sorted : IsSorted s.pending → IsSorted s'.pending

  Keeps-trans : {s s1 s2 : Interrupt W} → Keeps s s1 → Keeps s1 s2 → Keeps s s2
  Keeps-trans {s} {s1} {s2} a b = record {
    stats = b.stats ∙ a.stats;
    status = b.status ∙ a.status;
    level = λ h. b.level (a.level h);
    due =
        ap (λ t. due_count t s2.pending) (sym (ap (λ x. x.total) a.stats))
        ∙ b.due
        ∙ ap (λ t. due_count t s1.pending) (ap (λ x. x.total) a.stats)
        ∙ a.due;
    sorted = λ h. b.sorted (a.sorted h);
  }

  -- Schedule succeeds for a time in the future only, and enqueues the interrupt.
  pub schedule-eq-some :
      (handler arg from_now : ℕ) (type : IntType) (s : Interrupt W) {s1 : Interrupt W}
      → schedule handler arg from_now type s ≡ some s1
      → (due : ℕ) × (e : PendingInterrupt) × (ltb s.stats.total due ≡ true)
        × (s1 ≡ record s { pending = enqueue (due, e) s.pending })
  unfolding schedule
  schedule-eq-some handler arg from_now type s {s1} eq =
      elim (Bool-cases (ltb (s.stats.total + from_now) 2147483648)) [
        | inl y ↦ elim (Bool-cases (ltb 0 from_now)) [
          | inl p ↦
              let eq' = simp (y, p) at eq in
              (
                s.stats.total + from_now,
                record {
                  handler = handler;
                  arg = arg;
                  due = s.stats.total + from_now;
                  type = type;
                },
                ground (arith, p),
                cc,
              )
          | inr z ↦ let eq' = simp (y, z) at eq in cc
        ]
        | inr n ↦ let eq' = simp n at eq in cc
      ]

  schedule-Keeps :
      (handler arg from_now : ℕ) (type : IntType) (s : Interrupt W) {s1 : Interrupt W}
      → schedule handler arg from_now type s ≡ some s1
      → Keeps s s1
  schedule-Keeps handler arg from_now type s e =
      let (due, x, later, eq) = schedule-eq-some handler arg from_now type s e in
      subst (Keeps s) (sym eq) (record {
        stats = refl;
        status = refl;
        level = λ h. h;
        due = due_count-enqueue s.stats.total (due, x) s.pending ∙ rw later (omega arith);
        sorted = λ h. enqueue-IsSorted (due, x) s.pending h;
      })

  asks-Keeps : (s : Interrupt W) {s1 : Interrupt W} → set_yield_on_return s ≡ some s1 → Keeps s s1
  unfolding set_yield_on_return
  asks-Keeps s {s1} e =
      let e' = assert->>-eq-some (s.in_handler) (some (record s { yield_on_return = true })) e in
      let same : record s { yield_on_return = true } ≡ s1 = cc in
      subst (Keeps s) same
        (record { stats = refl; status = refl; level = λ h. h; due = refl; sorted = λ h. h })

  pub Calls-Keeps : {s s' : Interrupt W} → Calls s s' → Keeps s s'
  Calls-Keeps returns = record {
    stats = refl;
    status = refl;
    level = λ h. h;
    due = refl;
    sorted = λ h. h;
  }
  Calls-Keeps (schedules handler arg from_now type e c) =
      Keeps-trans (schedule-Keeps handler arg from_now type _ e) (Calls-Keeps c)
  Calls-Keeps (asks_to_yield e c) = Keeps-trans (asks-Keeps _ e) (Calls-Keeps c)
  Calls-Keeps (disables c) =
      let k = Calls-Keeps c in
      record {
        stats = k.stats;
        status = k.status;
        level = λ h. k.level refl;
        due = k.due;
        sorted = k.sorted;
      }
  Calls-Keeps (works w c) =
      let k = Calls-Keeps c in
      record { stats = k.stats; status = k.status; level = k.level; due = k.due; sorted = k.sorted }
