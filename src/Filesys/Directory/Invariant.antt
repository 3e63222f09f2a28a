-- ===== src/Filesys/Directory/Invariant.antt =====
-- Every operation keeps a directory free of two files of one name.
use cs270hw.Base.{
  ℕ, zero, suc, ◌+◌, ◌≤◌, ◌<◌, ◌≡◌, ◌∙◌, ap, refl, sym, subst, inl, inr, Bool, true, false, Option,
  none, some, List, [], ◌∷◌, length, get_elem?, set, arith, if◌then◌else◌, Bool-cases, Option-cases,
  leb,
}
use cs270hw.Base.Int.{ℤ, minus_one}
use cs270hw.Filesys.Directory.{
  DirectoryEntry, Directory, file_name_max_len, max_table_size, same, copy, hit, filled, place,
  carry, expand_table, add_expanded, add, remove, find_index, unused, new_directory,
}
use cs270hw.Filesys.Directory.Names.{same-copy, same_comm, same_refl, length-copy}
use cs270hw.Filesys.Directory.Lookup.{
  view, index, IsUnique, HasNames, answer, find_index-index, Located, located, missing, present,
}
use cs270hw.Filesys.Directory.Update.{
  view-place, view-none, view-set, view-carry, carry-next, view-not_found, with_name, entry_or,
}
use cs270hw.Filesys.Directory.Removal.{view-same, remove_at}

-- what the operations keep
pub record IsValid (d : Directory) : Type 0 where
  pub unique : IsUnique d
  pub names : HasNames d

copied-none :
    (d : Directory) (name to : List ℕ)
    → suc file_name_max_len ≡ length to
    → view d name ≡ none
    → view d (copy file_name_max_len name to) ≡ none
copied-none d name to h v =
    view-same d (copy file_name_max_len name to) name (
      same-copy file_name_max_len name to name (omega (arith, h))
      ∙ same_refl file_name_max_len name)
    ∙ v

-- An entry in use that does not have the name does not get a double.
other-none :
    (e : DirectoryEntry) (es es' : Directory) (name : List ℕ) (s : ℤ)
    → hit e name ≡ false
    → (e.in_use ≡ true → view es e.name ≡ none)
    → view es' e.name ≡ with_name es name s e.name
    → e.in_use ≡ true
    → view es' e.name ≡ none
other-none e es es' name s miss only h used =
    elim (Bool-cases (same file_name_max_len name e.name)) [
      | inl y ↦
          let back = same_comm file_name_max_len name e.name y in
          let got : hit e name ≡ true = rw (used, back) refl in cc
      | inr n ↦ let v : view es' e.name ≡ view es e.name = rw n at h in v ∙ only used
    ]

abbrev Both : Directory → Type 0
Both d = IsUnique d × HasNames d

abbrev BothSome : Option Directory → Type 0
BothSome none = Unit {0}
BothSome (some d) = Both d

place-IsUnique :
    (d d' : Directory) (name : List ℕ) (s : ℤ)
    → IsUnique d
    → HasNames d
    → view d name ≡ none
    → place d name s ≡ some d'
    → Both d'
unfolding place
place-IsUnique [] d' name s u n v h = cc
place-IsUnique (e ∷ es) d' name s (only, u) (len, n) v h =
    let (miss, v') = view-none e es name v in
    elim (Bool-cases e.in_use) [
      | inr free ↦
          let h1 : some (filled e name s ∷ es) ≡ some d' = simp free at h in
          subst BothSome h1 (
            ((λ used. copied-none es name e.name (sym len) v'), u),
            (length-copy file_name_max_len name e.name ∙ len, n),
          )
      | inl used ↦ elim (Option-cases (place es name s)) [
        | inl full ↦ let h1 = simp (used, full) at h in cc
        | inr (es', found) ↦
            let h1 : some (e ∷ es') ≡ some d' = simp (used, found) at h in
            let (u', n') = place-IsUnique es es' name s u n v' found in
            subst BothSome h1 (
              (
                other-none e es es' name s miss only (view-place es es' name s n v' found e.name),
                u',
              ),
              (len, n'),
            )
      ]
    ]

carry-IsUnique :
    (d ns : Directory) → length d ≤ length ns → IsUnique d → HasNames ns → Both (carry d ns)
unfolding carry
carry-IsUnique [] [] h u n = (tt, tt)
carry-IsUnique (e ∷ es) [] h u n = absurd (omega arith)
carry-IsUnique [] (x ∷ xs) h u (len, n) =
    let (u', n') = carry-IsUnique [] xs (omega arith) tt n in (((λ used. cc), u'), (len, n'))
carry-IsUnique (e ∷ es) (x ∷ xs) h (only, u) (len, n) =
    let (u', n') = carry-IsUnique es xs (omega arith) u n in
    (
      (
        (λ used.
            view-carry es xs (copy file_name_max_len e.name x.name) (omega arith) n
            ∙ copied-none es e.name x.name (sym len) (only used)),
        u',
      ),
      (length-copy file_name_max_len e.name x.name ∙ len, n'),
    )

set-IsUnique :
    (d : Directory) (i : ℕ) (e : DirectoryEntry) (name : List ℕ) (s : ℤ)
    → get_elem? d i ≡ some e
    → e.in_use ≡ false
    → length e.name ≡ suc file_name_max_len
    → view d name ≡ none
    → Both d
    → Both (set d i (filled e name s))
set-IsUnique [] i e name s g free len v b = cc
set-IsUnique (x ∷ xs) zero e name s g free len v ((only, u), (size, n)) =
    let (miss, v') = view-none x xs name v in
    (
      ((λ used. copied-none xs name e.name (sym len) v'), u),
      (length-copy file_name_max_len name e.name ∙ len, n),
    )
set-IsUnique (x ∷ xs) (suc i) e name s g free len v ((only, u), (size, n)) =
    let (miss, v') = view-none x xs name v in
    let (u', n') = set-IsUnique xs i e name s g free len v' (u, n) in
    (
      (
        other-none x xs (set xs i (filled e name s)) name s miss only
            (view-set xs i e name x.name s g free len v'),
        u',
      ),
      (size, n'),
    )

-- An entry that is no longer in use takes no name from the others.
view-unused :
    (d : Directory) (i : ℕ) (e : DirectoryEntry) (t : List ℕ)
    → view d t ≡ none
    → view (set d i (unused e)) t ≡ none
view-unused [] i e t v = refl
view-unused (x ∷ xs) zero e t v = let (miss, v') = view-none x xs t v in v'
view-unused (x ∷ xs) (suc i) e t v =
    let (miss, v') = view-none x xs t v in rw miss (view-unused xs i e t v')

unused-IsUnique :
    (d : Directory) (i : ℕ) (e : DirectoryEntry)
    → get_elem? d i ≡ some e
    → Both d
    → Both (set d i (unused e))
unused-IsUnique [] i e g b = cc
unused-IsUnique (x ∷ xs) zero e g ((only, u), (size, n)) =
    let is : x ≡ e = ap (entry_or e) g in
    (((λ used. cc), u), (sym (ap (λ (y : DirectoryEntry). length y.name) is) ∙ size, n))
unused-IsUnique (x ∷ xs) (suc i) e g ((only, u), (size, n)) =
    let (u', n') = unused-IsUnique xs i e g (u, n) in
    (((λ used. view-unused xs i e x.name (only used)), u'), (size, n'))

-- The constructor's table has no file.
pub new_directory-IsValid :
    (fresh : List DirectoryEntry) → HasNames fresh → IsValid (new_directory fresh)
unfolding new_directory
new_directory-IsValid [] n = record { unique = tt; names = tt }
new_directory-IsValid (e ∷ es) (len, n) =
    let rest = new_directory-IsValid es n in
    record { unique = ((λ used. cc), rest.unique); names = (len, rest.names) }

valid : (d : Directory) → Both d → IsValid d
valid d (u, n) = record { unique = u; names = n }

remove_at-IsValid :
    (d : Directory) (name : List ℕ) {o : Option ℕ}
    → IsValid d
    → Located d name o
    → (b : Bool) × (d' : Directory) × (remove_at d (answer o) ≡ some (b, d')) × IsValid d'
remove_at-IsValid d name v (missing q) = (false, d, refl, v)
remove_at-IsValid d name v (present i e g k q) =
    (true, set d i (unused e), rw g refl, valid _ (unused-IsUnique d i e g (v.unique, v.names)))

-- On a valid directory Remove completes, whether it finds the name or not, and leaves a valid
-- directory.
pub remove-IsValid :
    (d : Directory) (name : List ℕ)
    → IsValid d
    → (b : Bool) × (d' : Directory) × (remove d name ≡ some (b, d')) × IsValid d'
unfolding remove
remove-IsValid d name v =
    let (b, d', e, v') = remove_at-IsValid d name v (located d name) in
    (b, d', rw (find_index-index d name, remove) e, v')

module _ (fresh : ℕ → Directory) (sized : (k : ℕ) → length (fresh k) ≡ k)
    (named : (k : ℕ) → HasNames (fresh k)) where
  expanded-IsValid :
      (d : Directory) (name : List ℕ) (s : ℤ)
      → IsValid d
      → view d name ≡ none
      → leb max_table_size (length d) ≡ false
      → (d' : Directory) × (add_expanded fresh d name s ≡ some (true, d')) × IsValid d'
  unfolding add_expanded expand_table
  expanded-IsValid d name s v free room =
      let size : ℕ = if leb max_table_size (length d + 10) then max_table_size else length d + 10 in
      let larger : length d < length (fresh size) = ground (arith, sized size, room) in
      let (e, g, off, len) = carry-next d (fresh size) larger (named size) in
      let none_there : view (carry d (fresh size)) name ≡ none =
        view-carry d (fresh size) name (omega (arith, larger)) (named size) ∙ free in
      (
        set (carry d (fresh size)) (length d) (filled e name s),
        rw (g, off),
        valid _ (
            set-IsUnique (carry d (fresh size)) (length d) e name s g off len none_there
              (carry-IsUnique d (fresh size) (omega (arith, larger)) v.unique (named size))),
      )

  -- On a valid directory, one without two files of one name whose entries have room for names, Add
  -- completes whichever way it ends, and leaves a valid directory.
  pub add-IsValid :
      (d : Directory) (name : List ℕ) (s : ℤ)
      → IsValid d
      → (b : Bool) × (d' : Directory) × (add fresh d name s ≡ some (b, d')) × IsValid d'
  unfolding add
  add-IsValid d name s v = elim (Option-cases (index d name)) [
    | inr (i, found) ↦ (false, d, rw (find_index-index d name ∙ ap answer found, add) refl, v)
    | inl missed ↦
        let absent : find_index d name ≡ minus_one = find_index-index d name ∙ ap answer missed in
        let free = view-not_found d name absent in
        elim (Bool-cases (leb max_table_size (length d))) [
          | inl full ↦ (false, d, rw (absent, add, full) refl, v)
          | inr room ↦ elim (Option-cases (place d name s)) [
            | inr (d', e) ↦ (
              true,
              d',
              rw (absent, add, room, e) refl,
              valid d' (place-IsUnique d d' name s v.unique v.names free e),
            )
            | inl none_free ↦
                let (d', e, v') = expanded-IsValid d name s v free room in
                (true, d', rw (absent, add, room, none_free) e, v')
          ]
        ]
  ]
