-- ===== src/Threads/Lock.antt =====
-- The class Lock of threads/synch.h and synch.cc, and threads that use one lock. A thread is a number.
-- Acquire, Release and the wake-ups run with interrupts off, so each is one step of the system; a
-- thread that sleeps runs again when ReadyToRun got it, and then tests the lock again.
pub mod Exclusion
mod Tests
use cs270hw.Base.{
  ℕ, Bool, true, false, not, ◌&&◌, Option, none, some, List, [], ◌∷◌, ◌++◌, ◌==◌, ◌≡◌,
  if◌then◌else◌,
}

pub record LockState : Type 0 where
  pub lock_taken : Bool
  pub current_th : ℕ
  pub queue : List ℕ

-- `Lock::Lock`; the constructor does not set `currentTh`
abbrev pub new_lock : ℕ → LockState
new_lock noise = record { lock_taken = false; current_th = noise; queue = [] }

-- `Lock::isHeldByCurrentThread`, for the thread `me`
abbrev pub is_held_by : ℕ → LockState → Bool
is_held_by me l = l.current_th == me

-- `Lock::Acquire`, from a test of its loop on: the thread has the lock, or it sleeps
abbrev pub acquire : ℕ → LockState → Bool × LockState
acquire me l =
    if not (is_held_by me l) && l.lock_taken
    then (false, record l { queue = l.queue ++ (me ∷ []) })
    else (true, record l { lock_taken = true; current_th = me })

-- `queue->Remove()`
abbrev pub remove_first : LockState → Option ℕ × LockState
remove_first l = elim l.queue [ [] ↦ (none, l) | t ∷ ts ↦ (some t, record l { queue = ts }) ]

-- `Lock::Release`, with the thread that it makes ready
abbrev pub release : ℕ → LockState → Option ℕ × LockState
release me l =
    let (woken, l') = remove_first l in
    if not (is_held_by me l) then (none, l) else (woken, record l' { lock_taken = false })

-- what a thread does: nothing with the lock, about to test it, asleep in its queue, or inside
pub data Mode : Type 0 where
  outside trying sleeping inside : Mode

pub record System : Type 0 where
  pub lock : LockState
  pub mode : ℕ → Mode

abbrev pub put : (ℕ → Mode) → ℕ → Mode → ℕ → Mode
put f t m u = if u == t then m else f u

-- `scheduler->ReadyToRun(thread)`, if there is one
abbrev pub wake : Option ℕ → (ℕ → Mode) → ℕ → Mode
wake none f = f
wake (some t) f = put f t trying

abbrev pub after_acquire : System → ℕ → System
after_acquire s t =
    let (got, l) = acquire t s.lock in
    record { lock = l; mode = put s.mode t (if got then inside else sleeping) }

abbrev pub after_release : System → ℕ → System
after_release s t =
    let (woken, l) = release t s.lock in
    record { lock = l; mode = wake woken (put s.mode t outside) }

pub data Step : System → System → Type 0 where
  asks :
      (s : System) (t : ℕ) → s.mode t ≡ outside → Step s (record s { mode = put s.mode t trying })
  tests : (s : System) (t : ℕ) → s.mode t ≡ trying → Step s (after_acquire s t)
  leaves : (s : System) (t : ℕ) → s.mode t ≡ inside → Step s (after_release s t)
  -- a thread that does not have the lock calls Release
  strays : (s : System) (t : ℕ) → s.mode t ≡ outside → Step s (after_release s t)

-- the system before any thread used the lock
abbrev pub start : ℕ → System
start noise = record { lock = new_lock noise; mode = λ t. outside }

pub data Reach (noise : ℕ) : System → Type 0 where
  here : Reach noise (start noise)
  after : (s s' : System) → Reach noise s → Step s s' → Reach noise s'
