-- ===== src/Threads/Semaphore/Tests.antt =====
-- A semaphore with the value 1: thread 4 passes, thread 5 sleeps, and a V wakes it.
use cs270hw.Base.{ℕ, refl, [], ◌∷◌, arith}
use cs270hw.Threads.Semaphore.{
  Users, Reach, here, after, calls_p, tests, calls_v, start, after_p, after_v,
}
use cs270hw.Threads.Semaphore.Wakes.{IsFair, no_lost_v}

abbrev in_p : Users → ℕ → Users
in_p u t = record u { trying = t ∷ u.trying }

abbrev passed_4 : Users
passed_4 = after_p (in_p (start 1) 4) 4 []

abbrev asleep_5 : Users
asleep_5 = after_p (in_p passed_4 5) 5 []

passed_4-Reach : Reach 1 passed_4
passed_4-Reach =
    after (in_p (start 1) 4) passed_4
      (after (start 1) (in_p (start 1) 4) here (calls_p (start 1) 4))
      (tests (in_p (start 1) 4) 4 [] [] refl)

asleep_5-Reach : Reach 1 asleep_5
asleep_5-Reach =
    after (in_p passed_4 5) asleep_5
      (after passed_4 (in_p passed_4 5) passed_4-Reach (calls_p passed_4 5))
      (tests (in_p passed_4 5) 5 [] [] refl)

no_lost_v_example : IsFair 1 (after_v asleep_5)
no_lost_v_example =
    no_lost_v 1 (after_v asleep_5)
      (after asleep_5 (after_v asleep_5) asleep_5-Reach (calls_v asleep_5)) (omega arith)
