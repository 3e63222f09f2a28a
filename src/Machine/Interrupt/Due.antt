-- ===== src/Machine/Interrupt/Due.antt =====
-- The pending interrupts that are due at a time.
use cs270hw.Base.{
  ℕ, ◌+◌, ◌≤◌, ◌≡◌, refl, true, inl, inr, ltb, Bool-cases, if◌then◌else◌, [], ◌∷◌, length, arith,
}
use cs270hw.Threads.LinkedList.Queue.{Entry, enqueue, enqueue-front, enqueue-later, IsSorted}
use cs270hw.Machine.Interrupt.{Pending, PendingInterrupt}

abbrev pub due_count : ℕ → Pending → ℕ
due_count now [] = 0
due_count now (x ∷ xs) = (if ltb now x.0 then 0 else 1) + due_count now xs

pub due_count-enqueue :
    (now : ℕ) (x : Entry PendingInterrupt) (xs : Pending)
    → due_count now (enqueue x xs) ≡ due_count now (x ∷ xs)
due_count-enqueue now x [] = refl
due_count-enqueue now x (y ∷ ys) = elim (Bool-cases (ltb x.0 y.0)) [
  | inl e ↦ rw (enqueue-front x y ys e) refl
  | inr n ↦ let ih = due_count-enqueue now x ys in rw (enqueue-later x y ys n, ih) (omega arith)
]

pub due_count_le_length : (now : ℕ) (xs : Pending) → due_count now xs ≤ length xs
due_count_le_length now [] = omega arith
due_count_le_length now (x ∷ xs) = ground (arith, due_count_le_length now xs)

-- When the first is not due, none is.
pub due_count-later :
    (now : ℕ) (x : Entry PendingInterrupt) (xs : Pending)
    → ltb now x.0 ≡ true
    → IsSorted (x ∷ xs)
    → due_count now (x ∷ xs) ≡ 0
due_count-later now x [] later s = rw later refl
due_count-later now x (y ∷ ys) later (b, s) =
    ground (arith, due_count-later now y ys (ground arith) s)
