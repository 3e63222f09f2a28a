-- ===== src/Threads/Lock/Tests.antt =====
-- The theorems on the lock after concrete steps of two threads.
use cs270hw.Base.{ℕ, ◌≡◌, refl, ◌⊎◌}
use cs270hw.Threads.Lock.{
  System, trying, inside, put, after_acquire, asks, tests, Reach, here, after, start,
}
use cs270hw.Threads.Lock.Exclusion.{exclusive, no_lost_wake}

-- thread 1 asks and gets the lock, thread 2 asks
abbrev asked : System → ℕ → System
asked s t = record s { mode = put s.mode t trying }

abbrev one_inside : System
one_inside = after_acquire (asked (start 0) 1) 1

abbrev two_asleep : System
two_asleep = after_acquire (asked one_inside 2) 2

one_inside-Reach : Reach 0 one_inside
one_inside-Reach =
    after (asked (start 0) 1) one_inside
      (after (start 0) (asked (start 0) 1) here (asks (start 0) 1 refl))
      (tests (asked (start 0) 1) 1 refl)

two_asleep-Reach : Reach 0 two_asleep
two_asleep-Reach =
    after (asked one_inside 2) two_asleep
      (after one_inside (asked one_inside 2) one_inside-Reach (asks one_inside 2 refl))
      (tests (asked one_inside 2) 2 refl)

exclusive_example : ◌≡◌ {A = ℕ} 1 1
exclusive_example = exclusive 0 two_asleep 1 1 two_asleep-Reach refl refl

no_lost_wake_example :
    (two_asleep.mode two_asleep.lock.current_th ≡ inside) ⊎ ((u : ℕ) × (two_asleep.mode u ≡ trying))
no_lost_wake_example = no_lost_wake 0 two_asleep 2 two_asleep-Reach refl
