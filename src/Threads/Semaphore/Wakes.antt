-- ===== src/Threads/Semaphore/Wakes.antt =====
-- What holds of a semaphore in every state that its users reach.
use cs270hw.Base.{
  ℕ, ◌+◌, ◌%◌, ◌^◌, ◌≤◌, ◌<◌, ◌≡◌, ap, Bool-cases, inl, inr, List, [], ◌∷◌, ◌++◌, length,
  length-append, ◌==◌, arith,
}
use cs270hw.Threads.Semaphore.{
  Users, calls_p, tests, calls_v, Reach, here, after, after_p, after_v, ready, remove_thread,
}

-- While a thread sleeps, the value is at most the number of threads that will test it.
pub record IsFair (initial : ℕ) (u : Users) : Type 0 where
  pub counted : u.sem.value + u.passed ≡ initial + u.raised
  pub awake : 0 < length u.sem.queue → u.sem.value ≤ length u.trying

tests-IsFair :
    (initial : ℕ) (u : Users) (t : ℕ) (before behind : List ℕ)
    → u.trying ≡ before ++ (t ∷ behind)
    → IsFair initial u
    → IsFair initial (after_p u t (before ++ behind))
tests-IsFair initial u t before behind eq fair =
    let size = length-append before (t ∷ behind) in
    let size' = length-append before behind in
    let same = ap (length {A = ℕ}) eq in
    let counted = fair.counted in
    let awake = fair.awake in
    elim (Bool-cases (u.sem.value == 0)) [
      | inl y ↦ simp y (record { counted = counted; awake = λ h. ground (arith, y) })
      | inr n ↦
          simp n
            (record { counted = ground (arith, n); awake = λ h. let less = awake h in omega arith })
    ]

woken :
    (queue trying : List ℕ) (value : ℕ)
    → (0 < length queue → value ≤ length trying)
    → 0 < length ((remove_thread queue).1)
    → value + 1 ≤ length (ready ((remove_thread queue).0) trying)
woken [] trying value awake h = absurd (omega arith)
woken (t ∷ ts) trying value awake h = let less = awake (omega arith) in omega arith

calls_v-IsFair :
    (initial : ℕ) (u : Users)
    → initial + u.raised + 1 < 2 ^ 31
    → IsFair initial u
    → IsFair initial (after_v u)
calls_v-IsFair initial u small fair =
    let counted = fair.counted in
    let next : (u.sem.value + 1) % 2 ^ 32 ≡ u.sem.value + 1 = omega arith in
    rw next
      (record { counted = omega arith; awake = woken u.sem.queue u.trying u.sem.value fair.awake })

-- In every state that users of a semaphore reach from its start, where the initial value and the number
-- of calls of V together are below 2^31, the value is the initial one, and one more for each V and one
-- less for each P that came to its end; and while a thread sleeps in P, at least as many threads are
-- awake in P as the value counts, so that no V is lost.
pub no_lost_v :
    (initial : ℕ) (u : Users) → Reach initial u → initial + u.raised < 2 ^ 31 → IsFair initial u
no_lost_v initial u here small = record { counted = omega arith; awake = λ h. omega arith }
no_lost_v initial u (after u1 u2 r (calls_p u3 t)) small =
    let fair = no_lost_v initial u1 r small in
    let awake = fair.awake in
    record { counted = fair.counted; awake = λ h. let less = awake h in omega arith }
no_lost_v initial u (after u1 u2 r (tests u3 t before behind eq)) small =
    tests-IsFair initial u1 t before behind eq (no_lost_v initial u1 r small)
no_lost_v initial u (after u1 u2 r (calls_v u3)) small =
    calls_v-IsFair initial u1 (omega arith) (no_lost_v initial u1 r (omega arith))
