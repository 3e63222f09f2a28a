-- ===== src/Filesys/Directory/Removal.antt =====
-- What Remove does to the table of sectors by name.
use cs270hw.Base.{
  ℕ, zero, suc, ◌≡◌, ◌≢◌, ◌∙◌, ap, refl, sym, inl, inr, Bool, true, false, ◌&&◌, Option, none, some,
  List, [], ◌∷◌, get_elem?, set, arith, if◌then◌else◌, Bool-cases, Option-cases, ◌>>=◌,
}
use cs270hw.Base.Int.{ℤ, pos, negsuc, minus_one}
use cs270hw.Filesys.Directory.{
  DirectoryEntry, Directory, file_name_max_len, same, hit, remove, find, find_index, unused,
}
use cs270hw.Filesys.Directory.Names.{same_left}
use cs270hw.Filesys.Directory.Lookup.{
  view, index, IsUnique, or_minus_one, answer, find_index-index, Located, located, missing, present,
  find-view,
}
use cs270hw.Filesys.Directory.Update.{hit-same}

pub view-same :
    (d : Directory) (a b : List ℕ) → same file_name_max_len a b ≡ true → view d a ≡ view d b
view-same [] a b h = refl
view-same (e ∷ es) a b h =
    ap (λ c. if c then some e.sector else view es a) (sym (hit-same e a b h))
    ∙ ap (λ v. if hit e b then some e.sector else v) (view-same es a b h)

both : (a b : Bool) → (a && b) ≡ true → (a ≡ true) × (b ≡ true)
both a b h = ground arith

-- the table after a name lost its entry
abbrev without_name : Directory → List ℕ → List ℕ → Option ℤ
without_name d name t = if same file_name_max_len name t then none else view d t

-- The entry in front has the name.
view-front :
    (x : DirectoryEntry) (xs : Directory) (name t : List ℕ)
    → (x.in_use ≡ true → view xs x.name ≡ none)
    → hit x name ≡ true
    → view xs t ≡ without_name (x ∷ xs) name t
view-front x xs name t only y =
    let (used, eq) = both x.in_use (same file_name_max_len x.name name) y in
    elim (Bool-cases (same file_name_max_len name t)) [
      | inl s ↦ rw s (sym (view-same xs name t s) ∙ sym (view-same xs x.name name eq) ∙ only used)
      | inr s ↦
          let off : hit x t ≡ false =
            ap (λ b. x.in_use && b) (same_left file_name_max_len x.name name t eq ∙ s)
            ∙ ground arith in
          rw (s, off) refl
    ]

tail_index : Option ℕ → Option ℕ
tail_index none = none
tail_index (some zero) = none
tail_index (some (suc i)) = some i

view-remove :
    (d : Directory) (i : ℕ) (e : DirectoryEntry) (name t : List ℕ)
    → IsUnique d
    → index d name ≡ some i
    → get_elem? d i ≡ some e
    → view (set d i (unused e)) t ≡ without_name d name t
view-remove [] i e name t u h g = cc
view-remove (x ∷ xs) zero e name t (only, u) h g = elim (Bool-cases (hit x name)) [
  | inl y ↦ view-front x xs name t only y
  | inr n ↦ elim (Option-cases (index xs name)) [
    | inl q ↦ let h1 = rw (n, q) at h in cc
    | inr (j, q) ↦ let h1 = rw (n, q) at h in ground arith
  ]
]
view-remove (x ∷ xs) (suc i) e name t (only, u) h g = elim (Bool-cases (hit x name)) [
  | inl y ↦ let h1 = rw y at h in ground arith
  | inr n ↦ elim (Option-cases (index xs name)) [
    | inl q ↦ let h1 = rw (n, q) at h in cc
    | inr (j, q) ↦
        let h1 : some (suc j) ≡ some (suc i) = rw (n, q) at h in
        let q' : index xs name ≡ some i = q ∙ ground arith in
        let ih = view-remove xs i e name t u q' g in
        elim (Bool-cases (same file_name_max_len name t)) [
          | inl s ↦
              let gone : view (set xs i (unused e)) t ≡ none = rw s at ih in
              rw (hit-same x name t s ∙ n, s) gone
          | inr s ↦
              let kept : view (set xs i (unused e)) t ≡ view xs t = rw s at ih in
              rw s (ap (λ v. if hit x t then some x.sector else v) kept)
        ]
  ]
]

-- Remove, once FindIndex has answered
abbrev pub remove_at : Directory → ℤ → Option (Bool × Directory)
remove_at d (negsuc n) = some (false, d)
remove_at d (pos i) = do e ← get_elem? d i; some (true, set d i (unused e))

removed :
    (d : Directory) (name : List ℕ) {o : Option ℕ}
    → IsUnique d
    → index d name ≡ o
    → Located d name o
    → answer o ≢ minus_one
    → (d' : Directory) × (remove_at d (answer o) ≡ some (true, d'))
      × ((t : List ℕ) → view d' t ≡ without_name d name t)
removed d name u h (missing v) ne = absurd (ne refl)
removed d name u h (present i e g k v) ne =
    (set d i (unused e), rw g refl, λ t. view-remove d i e name t u h g)

find-without_name :
    (d d' : Directory) (name t : List ℕ)
    → view d' t ≡ without_name d name t
    → find d' t ≡ (if same file_name_max_len name t then some minus_one else find d t)
find-without_name d d' name t h = elim (Bool-cases (same file_name_max_len name t)) [
  | inl y ↦
      let v : view d' t ≡ none = rw y at h in
      rw y (find-view d' t ∙ ap (λ v. some (or_minus_one v)) v)
  | inr n ↦
      let v : view d' t ≡ view d t = rw n at h in
      rw n (find-view d' t ∙ ap (λ v. some (or_minus_one v)) v ∙ sym (find-view d t))
]

-- In a directory without two files of one name, Remove of a name that FindIndex finds returns
-- true; then Find gives -1 for every name that compares equal to it, and what it gave before for
-- the others.
pub find-remove :
    (d : Directory) (name : List ℕ)
    → IsUnique d
    → find_index d name ≢ minus_one
    → (d' : Directory) × (remove d name ≡ some (true, d'))
      × ((t : List ℕ)
          → find d' t ≡ (if same file_name_max_len name t then some minus_one else find d t))
unfolding remove
find-remove d name u there =
    let ne : answer (index d name) ≢ minus_one = λ e. there (find_index-index d name ∙ e) in
    let (d', e, vs) = removed d name u refl (located d name) ne in
    (d', rw (find_index-index d name, remove) e, λ t. find-without_name d d' name t (vs t))
