-- ===== src/Threads/Condition.antt =====
-- The class Condition of threads/synch.h and synch.cc, with the lock of Threads/Lock. The thread `me`
-- calls; its interrupts are off, so each call runs to its end, or Wait to the sleep of the thread, in
-- one step. `waiting_threads` counts what the queue holds.
pub mod Waking
mod Tests
use cs270hw.Base.{
  ℕ, zero, suc, ◌+◌, ◌-◌, ◌%◌, ◌^◌, Bool, true, false, not, Option, none, some, List, [], ◌∷◌, ◌++◌,
  ltb, if◌then◌else◌,
}
use cs270hw.Threads.Lock.{LockState, is_held_by, release}
use cs270hw.Threads.Semaphore.{remove_thread, ready}

-- `waiting_threads` is an `int`, here its 32 bits; the operations are those of values below 2^31.
pub record CondState : Type 0 where
  pub waiting_threads : ℕ
  pub queue : List ℕ

-- `Condition::Condition`
abbrev pub new_condition : CondState
new_condition = record { waiting_threads = 0; queue = [] }

-- `Condition::Wait`, up to the sleep of the thread: whether it sleeps, the thread that the release of
-- the lock makes ready, the condition and the lock
pub wait : ℕ → CondState → LockState → Bool × Option ℕ × CondState × LockState
wait me c l =
    let (woken, l') = release me l in
    if not (is_held_by me l) then (false, none, c, l) else (
      true,
      woken,
      record { waiting_threads = (c.waiting_threads + 1) % 2 ^ 32; queue = c.queue ++ (me ∷ []) },
      l',
    )

-- `waiting_threads--; thread = queue->Remove();`
abbrev pub wake_one : CondState → Option ℕ × CondState
wake_one c =
    let (woken, ts) = remove_thread c.queue in
    (woken, record { waiting_threads = c.waiting_threads - 1; queue = ts })

-- `Condition::Signal`, with the thread that it makes ready
pub signal : ℕ → CondState → LockState → Option ℕ × CondState
signal me c l =
    if not (is_held_by me l)
    then (none, c)
    else if ltb 0 c.waiting_threads
    then wake_one c
    else (none, c)

-- the loop of Broadcast, with `waiting_threads` rounds: the threads made ready, the last one first
pub wake_all : ℕ → List ℕ → List ℕ → List ℕ × List ℕ
wake_all zero woken queue = (woken, queue)
wake_all (suc n) woken queue = let (t, ts) = remove_thread queue in wake_all n (ready t woken) ts

-- `Condition::Broadcast`
pub broadcast : ℕ → CondState → LockState → List ℕ × CondState
broadcast me c l =
    let (woken, ts) = wake_all c.waiting_threads [] c.queue in
    if not (is_held_by me l) then ([], c) else (woken, record { waiting_threads = 0; queue = ts })
