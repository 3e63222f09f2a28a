-- ===== src/Vm/SwapManager/Slots.antt =====
-- The slots of the swap file.
use cs270hw.Base.{
  ℕ, ◌<◌, ◌≡◌, ap, refl, Bool, true, ◌&&◌, Bool-cases, inl, inr, Option, none, some, length, get_or,
  get_elem?-get_or, ◌==◌, arith,
}
use cs270hw.Base.Int.{ℤ, pos, negsuc, minus_one}
use cs270hw.BitMap.Bits.{IsValid, is_set, test_lem}
use cs270hw.Machine.{Entry}
use cs270hw.Vm.SwapManager.{SwapManager, swap_size, same_int, is_at}

pub same_int_iff : (a b : ℤ) → (same_int a b ≡ true) → a ≡ b
same_int_iff (pos a) (pos b) h = ap pos (ground arith)
same_int_iff (pos a) (negsuc b) h = absurd (ground arith)
same_int_iff (negsuc a) (pos b) h = absurd (ground arith)
same_int_iff (negsuc a) (negsuc b) h = ap negsuc (ground arith)

pub same_int_refl : (a : ℤ) → same_int a a ≡ true
same_int_refl (pos a) = ground arith
same_int_refl (negsuc a) = ground arith

-- the page of an entry
abbrev pub page_of : Option Entry → ℕ
page_of none = 0
page_of (some e) = e.virtual_page

module _ {F : Type 0} (table : ℕ → Option Entry) where
  -- The arrays have their length, and a slot in use has an entry.
  pub record IsSound (m : SwapManager F) : Type 0 where
    pub valid : IsValid m.bitmap
    pub bits : m.bitmap.num_bits ≡ swap_size
    pub owners : length m.pids ≡ swap_size
    pub pages : length m.entries ≡ swap_size
    pub entry :
        (i : ℕ)
        → i < swap_size
        → is_set m.bitmap i ≡ true
        → (e : Entry) × (table (get_or m.entries i 0) ≡ some e)

  -- whether the slot `i` holds the page `vpn` of the process `pid`
  abbrev pub holds : SwapManager F → ℤ → ℕ → ℕ → Bool
  holds m pid vpn i =
      same_int (get_or m.pids i minus_one) pid
      && is_set m.bitmap i
      && page_of (table (get_or m.entries i 0)) == vpn

  pub is_at_lem :
      (m : SwapManager F) (pid : ℤ) (vpn i : ℕ)
      → IsSound m
      → i < swap_size
      → is_at table m pid vpn i ≡ some (holds m pid vpn i)
  unfolding is_at
  is_at_lem m pid vpn i sound less =
      let owner = get_elem?-get_or m.pids i minus_one (omega (arith, sound.owners)) in
      let used = test_lem m.bitmap i sound.valid (omega (arith, sound.bits)) in
      let page = get_elem?-get_or m.entries i 0 (omega (arith, sound.pages)) in
      elim (Bool-cases (same_int (get_or m.pids i minus_one) pid)) [
        | inr n ↦ rw (owner, n) refl
        | inl y ↦ elim (Bool-cases (is_set m.bitmap i)) [
          | inr n ↦ rw (owner, y, used, n) refl
          | inl u ↦ let (e, at) = sound.entry i less u in rw (owner, y, used, u, page, at) refl
        ]
      ]
