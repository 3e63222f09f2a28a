-- ===== src/Threads/LinkedList/Queue.antt =====
-- What a list ordered by key promises: a queue of keys and items, which knows of no pointers.
use cs270hw.Base.{
  ℕ, ◌+◌, ◌≤◌, ◌≡◌, refl, inl, inr, true, false, Option, none, some, List, [], ◌∷◌, length, arith,
  if◌then◌else◌, Bool-cases, ltb, ltb→lt,
}

-- The queue: its entries, the one to be removed first.
abbrev pub Entry : Type 0 → Type 0
Entry A = ℕ × A

module _ {A : Type 0} where
  -- a new entry, behind those whose key is not greater
  abbrev pub enqueue : Entry A → List (Entry A) → List (Entry A)
  enqueue e [] = e ∷ []
  enqueue e (x ∷ xs) = let rest = enqueue e xs in if ltb e.0 x.0 then e ∷ x ∷ xs else x ∷ rest

  abbrev pub front : List (Entry A) → Option (A × ℕ)
  front [] = none
  front ((key, item) ∷ xs) = some (item, key)

  abbrev pub rest : List (Entry A) → List (Entry A)
  rest [] = []
  rest (x ∷ xs) = xs

  abbrev pub Behind : ℕ → List (Entry A) → Type 0
  Behind k [] = Unit {0}
  Behind k (x ∷ xs) = k ≤ x.0

  -- The keys do not fall.
  abbrev pub IsSorted : List (Entry A) → Type 0
  IsSorted [] = Unit {0}
  IsSorted (x ∷ xs) = Behind x.0 xs × IsSorted xs

  pub enqueue-front :
      (e x : Entry A) (xs : List (Entry A)) → ltb e.0 x.0 ≡ true → enqueue e (x ∷ xs) ≡ e ∷ x ∷ xs
  enqueue-front e x xs y = rw (y, enqueue) refl

  pub enqueue-later :
      (e x : Entry A) (xs : List (Entry A))
      → ltb e.0 x.0 ≡ false
      → enqueue e (x ∷ xs) ≡ x ∷ enqueue e xs
  enqueue-later e x xs n = rw (n, enqueue) refl

  enqueue-Behind :
      (k : ℕ) (e : Entry A) (xs : List (Entry A)) → k ≤ e.0 → Behind k xs → Behind k (enqueue e xs)
  enqueue-Behind k e [] le b = le
  enqueue-Behind k e (x ∷ xs) le b = elim (Bool-cases (ltb e.0 x.0)) [
    | inl y ↦ rw (enqueue-front e x xs y) le
    | inr n ↦ rw (enqueue-later e x xs n) b
  ]

  pub enqueue-IsSorted : (e : Entry A) (xs : List (Entry A)) → IsSorted xs → IsSorted (enqueue e xs)
  enqueue-IsSorted e [] s = (tt, tt)
  enqueue-IsSorted e (x ∷ xs) (b, s) = elim (Bool-cases (ltb e.0 x.0)) [
    | inl y ↦ let lt = ltb→lt e.0 x.0 y in rw (enqueue-front e x xs y) (omega arith, (b, s))
    | inr n ↦
        rw (enqueue-later e x xs n)
          (enqueue-Behind x.0 e xs (ground (arith, n)) b, enqueue-IsSorted e xs s)
  ]

  pub length-enqueue : (e : Entry A) (xs : List (Entry A)) → length (enqueue e xs) ≡ length xs + 1
  length-enqueue e [] = refl
  length-enqueue e (x ∷ xs) = elim (Bool-cases (ltb e.0 x.0)) [
    | inl y ↦ rw (enqueue-front e x xs y) (omega arith)
    | inr n ↦ let ih = length-enqueue e xs in rw (enqueue-later e x xs n) (omega arith)
  ]
