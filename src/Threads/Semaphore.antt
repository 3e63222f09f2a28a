-- ===== src/Threads/Semaphore.antt =====
-- The class Semaphore of threads/synch.h and synch.cc, and threads that use one semaphore. P and V run
-- with interrupts off, so each is one step of the system; a thread that sleeps in P runs again when
-- ReadyToRun got it, and then tests the value again. The queue is that of Append and Remove.
pub mod Wakes
mod Tests
use cs270hw.Base.{
  ℕ, suc, ◌+◌, ◌-◌, ◌%◌, ◌^◌, Bool, true, false, Option, none, some, List, [], ◌∷◌, ◌++◌, ◌==◌, ◌≡◌,
  if◌then◌else◌,
}

-- `value` is an `int`, here its 32 bits; for a value that is not negative they are the value.
pub record SemState : Type 0 where
  pub value : ℕ
  pub queue : List ℕ

-- `Semaphore::Semaphore`, for a value that is not negative
abbrev pub new_semaphore : ℕ → SemState
new_semaphore initial = record { value = initial; queue = [] }

-- `Semaphore::P`, from a test of its loop on: the thread `me` is through, or it sleeps
abbrev pub p : ℕ → SemState → Bool × SemState
p me s =
    if s.value == 0
    then (false, record s { queue = s.queue ++ (me ∷ []) })
    else (true, record s { value = s.value - 1 })

-- `queue->Remove()`
abbrev pub remove_thread : List ℕ → Option ℕ × List ℕ
remove_thread [] = (none, [])
remove_thread (t ∷ ts) = (some t, ts)

-- `Semaphore::V`, with the thread that it makes ready
abbrev pub v : SemState → Option ℕ × SemState
v s =
    let (woken, ts) = remove_thread s.queue in
    (woken, record { value = (s.value + 1) % 2 ^ 32; queue = ts })

-- The threads that are in P and will test the value, and how often P and V came to their end.
pub record Users : Type 0 where
  pub sem : SemState
  pub trying : List ℕ
  pub passed : ℕ
  pub raised : ℕ

-- `scheduler->ReadyToRun(thread)`, if there is one
abbrev pub ready : Option ℕ → List ℕ → List ℕ
ready none ts = ts
ready (some t) ts = t ∷ ts

abbrev pub after_p : Users → ℕ → List ℕ → Users
after_p u t others =
    let (through, s) = p t u.sem in
    record u { sem = s; trying = others; passed = if through then u.passed + 1 else u.passed }

abbrev pub after_v : Users → Users
after_v u =
    let (woken, s) = v u.sem in
    record u { sem = s; trying = ready woken u.trying; raised = u.raised + 1 }

pub data Step : Users → Users → Type 0 where
  calls_p : (u : Users) (t : ℕ) → Step u (record u { trying = t ∷ u.trying })
  tests :
      (u : Users) (t : ℕ) (before behind : List ℕ)
      → u.trying ≡ before ++ (t ∷ behind)
      → Step u (after_p u t (before ++ behind))
  calls_v : (u : Users) → Step u (after_v u)

abbrev pub start : ℕ → Users
start initial = record { sem = new_semaphore initial; trying = []; passed = 0; raised = 0 }

pub data Reach (initial : ℕ) : Users → Type 0 where
  here : Reach initial (start initial)
  after : (u u' : Users) → Reach initial u → Step u u' → Reach initial u'
