-- ===== src/Filesys/Directory/Names.antt =====
-- Names as strncmp and strncpy read them: the bytes up to a zero, nine at most.
use cs270hw.Base.{
  ℕ, zero, suc, ◌≤◌, ◌≡◌, inl, inr, refl, sym, ap, ◌∙◌, true, false, List, [], ◌∷◌, length, arith,
  ◌==◌, ==_iff, if◌then◌else◌, Bool-cases,
}
use cs270hw.Filesys.Directory.{first, next, same, copy}

-- the first `n` bytes of a string, without what follows a zero
abbrev pub key : ℕ → List ℕ → List ℕ
key zero a = []
key (suc n) a = if first a == 0 then [] else first a ∷ key n (next a)

-- the key of a string with a first byte, and of one without
key-end : (n : ℕ) (a : List ℕ) → (first a == 0) ≡ true → key (suc n) a ≡ []
key-end n a h = rw (h, key) refl

key-more : (n : ℕ) (a : List ℕ) → (first a == 0) ≡ false → key (suc n) a ≡ first a ∷ key n (next a)
key-more n a h = rw (h, key) refl

pub same→key : (n : ℕ) (a b : List ℕ) → same n a b ≡ true → key n a ≡ key n b
unfolding same
same→key zero a b h = refl
same→key (suc n) a b h = elim (Bool-cases (first a == first b)) [
  | inr differ ↦ let h1 = rw differ at h in cc
  | inl equal ↦
      let heads = (==_iff (first a) (first b)).0 equal in
      elim (Bool-cases (first a == 0)) [
        | inl end_ ↦ key-end n a end_ ∙ sym (key-end n b (ap (λ x. x == 0) (sym heads) ∙ end_))
        | inr more ↦
            let h1 : same n (next a) (next b) ≡ true = rw (equal, more) at h in
            key-more n a more
            ∙ ap (λ x. x ∷ key n (next a)) heads
            ∙ ap (λ k. first b ∷ k) (same→key n (next a) (next b) h1)
            ∙ sym (key-more n b (ap (λ x. x == 0) (sym heads) ∙ more))
      ]
]

pub key→same : (n : ℕ) (a b : List ℕ) → key n a ≡ key n b → same n a b ≡ true
unfolding same
key→same zero a b h = refl
key→same (suc n) a b h = elim (Bool-cases (first a == 0)) [
  | inl end_a ↦ elim (Bool-cases (first b == 0)) [
    | inl end_b ↦ ground (arith, end_a, end_b)
    | inr more_b ↦ let h1 = sym (key-end n a end_a) ∙ h ∙ key-more n b more_b in cc
  ]
  | inr more_a ↦ elim (Bool-cases (first b == 0)) [
    | inl end_b ↦ let h1 = sym (key-more n a more_a) ∙ h ∙ key-end n b end_b in cc
    | inr more_b ↦
        let h1 = sym (key-more n a more_a) ∙ h ∙ key-more n b more_b in
        let heads : first a ≡ first b = ap first h1 in
        let rest = key→same n (next a) (next b) (ap next h1) in
        let equal = (==_iff (first a) (first b)).1 heads in rw (equal, more_a) rest
  ]
]

pub key-copy : (n : ℕ) (from to : List ℕ) → n ≤ length to → key n (copy n from to) ≡ key n from
unfolding copy
key-copy zero from to h = refl
key-copy (suc n) from [] h = absurd (omega arith)
key-copy (suc n) from (b ∷ to) h = elim (Bool-cases (first from == 0)) [
  | inl end_ ↦ rw end_ refl
  | inr more ↦ rw more (ap (λ k. first from ∷ k) (key-copy n (next from) to (omega arith)))
]

pub length-copy : (n : ℕ) (from to : List ℕ) → length (copy n from to) ≡ length to
unfolding copy
length-copy zero from to = refl
length-copy (suc n) from [] = refl
length-copy (suc n) from (b ∷ to) =
    ap suc (length-copy n (if first from == 0 then [] else next from) to)

-- strncmp on a name depends on its key alone.
pub same-key : (n : ℕ) (a b c : List ℕ) → key n a ≡ key n b → same n a c ≡ same n b c
same-key n a b c h = elim (Bool-cases (same n a c)) [
  | inl t ↦ t ∙ sym (key→same n b c (sym h ∙ same→key n a c t))
  | inr f ↦ elim (Bool-cases (same n b c)) [
    | inl t ↦ let g = key→same n a c (h ∙ same→key n b c t) in cc
    | inr g ↦ f ∙ sym g
  ]
]

-- A copied name compares as the name itself.
pub same-copy :
    (n : ℕ) (from to c : List ℕ) → n ≤ length to → same n (copy n from to) c ≡ same n from c
same-copy n from to c h = same-key n (copy n from to) from c (key-copy n from to h)

pub same_refl : (n : ℕ) (a : List ℕ) → same n a a ≡ true
same_refl n a = key→same n a a refl

pub same_comm : (n : ℕ) (a b : List ℕ) → same n a b ≡ true → same n b a ≡ true
same_comm n a b h = key→same n b a (sym (same→key n a b h))

-- Names that compare equal compare alike with every other name.
pub same_left : (n : ℕ) (a b c : List ℕ) → same n a b ≡ true → same n a c ≡ same n b c
same_left n a b c h = same-key n a b c (same→key n a b h)

pub same_right : (n : ℕ) (a b c : List ℕ) → same n a b ≡ true → same n c a ≡ same n c b
same_right n a b c h = elim (Bool-cases (same n c a)) [
  | inl t ↦ t ∙ sym (key→same n c b (same→key n c a t ∙ same→key n a b h))
  | inr f ↦ elim (Bool-cases (same n c b)) [
    | inl t ↦ let g = key→same n c a (same→key n c b t ∙ sym (same→key n a b h)) in cc
    | inr g ↦ f ∙ sym g
  ]
]
