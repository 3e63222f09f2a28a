-- ===== src/Machine/Mult/Product.antt =====
-- The two words that `Mult` writes are the product.
use native.Mathlib.Nat.{pow-suc, one-le-pow, mul-le-mul, mul_comm}
use cs270hw.Base.{
  ℕ, zero, suc, ◌+◌, ◌-◌, ◌*◌, ◌/◌, ◌%◌, ◌^◌, ◌≤◌, ◌<◌, ◌≡◌, refl, ◌∙◌, ap, Bool, true, false, ◌==◌,
  ◌||◌, ◌&&◌, not, if◌then◌else◌, bit_or, arith, Bool-cases, inl, inr, leb,
}
use cs270hw.Base.Bits.{bit, bit_or-one, bit_add_high, low, low_same, low_all}
use cs270hw.Base.Int.{ℤ, pos, negsuc, ◌*ℤ◌}
use cs270hw.Machine.Word.{magnitude, signed, word, neg, is_neg, shl, asr, sign_bit}
use cs270hw.Machine.Mult.{HiLo, add_pair, mult_loop, negate, accumulate, mult}

abbrev pub value64 : HiLo → ℕ
value64 p = p.hi * word + p.lo

-- both parts are words
pub record IsPair (p : HiLo) : Type 0 where
  pub hi_word : p.hi < word
  pub lo_word : p.lo < word

add_pair_lem :
    (p : HiLo) (b_hi b_lo : ℕ)
    → IsPair p
    → b_lo < word
    → value64 p + (b_hi * word + b_lo) < 2 ^ 64
    → IsPair (add_pair p b_hi b_lo)
      × (value64 (add_pair p b_hi b_lo) ≡ value64 p + (b_hi * word + b_lo))
unfolding add_pair
add_pair_lem p b_hi b_lo i l h = ground arith

-- The rounds that are left do not see the sign that `>>` shifts in.
low-asr : (n a : ℕ) → n ≤ 31 → a < word → low n (asr a 1) ≡ low n (a / 2)
low-asr n a h w = elim (Bool-cases (is_neg a)) [
  | inr s ↦ rw s (ap (low n) (omega arith))
  | inl s ↦ low_same n (asr a 1) (a / 2) λ k hk.
      let top : suc (k + (30 - k)) ≡ 31 = omega arith in
      let shifted : asr a 1 ≡ a / 2 + 2 ^ suc (k + (30 - k)) = rw (top, s) (ground arith) in
      ap (λ w. bit w k) shifted ∙ bit_add_high k (30 - k) (a / 2)
]

-- One more bit of `a` and the doubled addend.
double_lem :
    (b_hi b_lo : ℕ)
    → b_lo < word
    → b_hi < sign_bit
    → let hi = if is_neg b_lo then bit_or (shl b_hi 1) 1 else shl b_hi 1 in
      (hi < word) × (shl b_lo 1 < word) × (hi * word + shl b_lo 1 ≡ 2 * (b_hi * word + b_lo))
double_lem b_hi b_lo l h =
    let even : shl b_hi 1 ≡ b_hi * 2 = omega arith in rw even (ground (arith, bit_or-one b_hi))

round_lem :
    (p : HiLo) (b_hi b_lo d l : ℕ)
    → IsPair p
    → b_lo < word
    → d ≤ 1
    → value64 p + (b_hi * word + b_lo) * (d + 2 * l) < 2 ^ 64
    → let q = if d == 1 then add_pair p b_hi b_lo else p in
      IsPair q × (value64 q ≡ value64 p + (b_hi * word + b_lo) * d)
round_lem p b_hi b_lo zero l i w h fits = (i, omega arith)
round_lem p b_hi b_lo (suc zero) l i w h fits =
    let (i', e) = add_pair_lem p b_hi b_lo i w (omega arith) in (i', omega (arith, e))
round_lem p b_hi b_lo (suc (suc d)) l i w h fits = absurd (omega arith)

low-zero : (n : ℕ) → low n 0 ≡ 0
low-zero zero = refl
low-zero (suc n) = omega (arith, low-zero n)

le-mul_pow : (x n : ℕ) → x ≤ x * 2 ^ n
le-mul_pow x n = grind (arith, one-le-pow n 2)

-- What is left to add fits, and so does the doubled addend.
room_lem :
    (b_hi b_lo n : ℕ)
    → (b_hi * word + b_lo) * 2 ^ suc n < 2 ^ 64
    → (b_hi < sign_bit) × (2 * (b_hi * word + b_lo) * 2 ^ n < 2 ^ 64)
room_lem b_hi b_lo n room =
    let b : ℕ = b_hi * word + b_lo in
    let twice : b * 2 ^ suc n ≡ 2 * b * 2 ^ n =
      omega (arith, ap (λ (t : ℕ). b * t) (pow-suc 2 n)) in
    (omega (arith, le-mul_pow (2 * b) n, twice), omega (arith, twice))

mult_loop_lem :
    (n a b_hi b_lo : ℕ) (p : HiLo)
    → n ≤ 32
    → a < word
    → b_lo < word
    → IsPair p
    → (b_hi * word + b_lo) * 2 ^ n < 2 ^ 64
    → value64 p + (b_hi * word + b_lo) * low n a < 2 ^ 64
    → IsPair (mult_loop n a b_hi b_lo p)
      × (value64 (mult_loop n a b_hi b_lo p) ≡ value64 p + (b_hi * word + b_lo) * low n a)
unfolding mult_loop
mult_loop_lem zero a b_hi b_lo p hn ha l i room fits = (i, omega arith)
mult_loop_lem (suc n) a b_hi b_lo p hn ha l i room fits =
    let b : ℕ = b_hi * word + b_lo in
    let q : HiLo = if a % 2 == 1 then add_pair p b_hi b_lo else p in
    let (iq, eq) = round_lem p b_hi b_lo (a % 2) (low n (a / 2)) i l (omega arith) fits in
    elim (Bool-cases (a % 2 == 1 && a / 2 == 0)) [
      | inl stop ↦
          let nothing : low n (a / 2) ≡ 0 = ap (low n) (ground arith) ∙ low-zero n in
          rw stop (iq, rw nothing (omega (arith, eq)))
      | inr go ↦
          let (small, room') = room_lem b_hi b_lo n room in
          let (hw, lw, twice) = double_lem b_hi b_lo l small in
          let b_hi' : ℕ = if is_neg b_lo then bit_or (shl b_hi 1) 1 else shl b_hi 1 in
          let same : low n (asr a 1) ≡ low n (a / 2) = low-asr n a (omega arith) ha in
          let total : value64 q + (b_hi' * word + shl b_lo 1) * low n (asr a 1)
              ≡ value64 p + b * (a % 2 + 2 * low n (a / 2)) =
            rw (same, twice) (omega (arith, eq)) in
          let (ir, er) =
            mult_loop_lem n (asr a 1) b_hi' (shl b_lo 1) q (omega arith) (ground arith) lw iq
              (rw twice room') (rw total fits) in
          rw go (ir, er ∙ total)
    ]

mul_word : (x y : ℕ) → x < word → y < word → x * y < 2 ^ 64
mul_word x y hx hy = grind (arith, mul-le-mul_bound x y)
  where
    mul-le-mul_bound : (u v : ℕ) → u ≤ word - 1 → v ≤ word - 1 → u * v ≤ (word - 1) * (word - 1)
    mul-le-mul_bound u v hu hv = mul-le-mul hu hv

-- The loop from nothing: the product of two words.
accumulate_lem :
    (a b : ℕ) → a < word → b < word → IsPair (accumulate a b) × (value64 (accumulate a b) ≡ b * a)
unfolding accumulate
accumulate_lem a b ha hb =
    let all : low 32 a ≡ a = low_all 32 a ha in
    let start : HiLo = record { hi = 0; lo = 0 } in
    let ok : IsPair start = record { hi_word = omega arith; lo_word = omega arith } in
    let sum : value64 start + (0 * word + b) * low 32 a ≡ b * a = rw all (omega arith) in
    let (i, e) =
      mult_loop_lem 32 a 0 b start (omega arith) ha hb ok (omega arith)
        (rw sum (mul_word b a hb ha)) in
    (i, e ∙ sum)

-- MULTU of two words: the two result words are words, and are the product of the operands.
pub multu_lem :
    (a b : ℕ) → a < word → b < word → IsPair (mult a b false) × (value64 (mult a b false) ≡ a * b)
unfolding mult
multu_lem a b ha hb = grind (arith, accumulate_lem a b ha hb)

negate_lem :
    (p : HiLo)
    → IsPair p
    → 0 < value64 p
    → IsPair (negate p) × (value64 (negate p) ≡ 2 ^ 64 - value64 p)
unfolding negate
negate_lem p i h = ground arith

-- the integer of a 64-bit pattern
abbrev pub signed64 : ℕ → ℤ
signed64 v = if leb (2 ^ 63) v then negsuc (2 ^ 64 - v - 1) else pos v

mul-lt_signed : (x y : ℕ) → x ≤ sign_bit → y ≤ sign_bit → x * y ≤ 2 ^ 62
mul-lt_signed x y hx hy = mul-le-mul hx hy

mul-pos : (x y : ℕ) → 0 < x → 0 < y → 0 < x * y
mul-pos x y hx hy = grind arith

signed_zero : (a b : ℕ) → (a == 0 || b == 0) ≡ true → signed64 0 ≡ signed a *ℤ signed b
unfolding ◌*ℤ◌
signed_zero zero b z = ground arith
signed_zero (suc a) zero z = ground arith
signed_zero (suc a) (suc b) z = ground arith

-- the integer of a sign and a magnitude
abbrev signed_of : Bool → ℕ → ℤ
signed_of s zero = pos 0
signed_of true (suc n) = negsuc n
signed_of false (suc n) = pos (suc n)

signed-signed_of : (a : ℕ) → a < word → signed a ≡ signed_of (is_neg a) (magnitude a)
signed-signed_of zero h = refl
signed-signed_of (suc a) h = elim (Bool-cases (is_neg (suc a))) [
  | inl n ↦ let m : neg (suc a) ≡ suc (word - suc a - 1) = ground arith in rw (n, m)
  | inr n ↦ rw n
]

zero-*ℤ : (z : ℤ) → pos 0 *ℤ z ≡ pos 0
unfolding ◌*ℤ◌
zero-*ℤ (pos n) = ground arith
zero-*ℤ (negsuc n) = ground arith

*ℤ-zero : (z : ℤ) → z *ℤ pos 0 ≡ pos 0
unfolding ◌*ℤ◌
*ℤ-zero (pos n) = ground arith
*ℤ-zero (negsuc n) = ground arith

signed_of-* :
    (s t : Bool) (x y : ℕ)
    → signed_of s x *ℤ signed_of t y ≡ signed_of (if t then not s else s) (x * y)
unfolding ◌*ℤ◌
signed_of-* s t zero y = let e : 0 * y ≡ 0 = omega arith in rw e (zero-*ℤ (signed_of t y))
signed_of-* s t (suc x) zero =
    let e : suc x * 0 ≡ 0 = omega arith in rw e (*ℤ-zero (signed_of s (suc x)))
signed_of-* true true (suc x) (suc y) =
    let e : suc x * suc y ≡ suc (x * y + x + y) = omega arith in rw e (ground (arith, e))
signed_of-* true false (suc x) (suc y) =
    let e : suc x * suc y ≡ suc (x * y + x + y) = omega arith in rw e (ground (arith, e))
signed_of-* false true (suc x) (suc y) =
    let e : suc x * suc y ≡ suc (x * y + x + y) = omega arith in rw e (ground (arith, e))
signed_of-* false false (suc x) (suc y) =
    let e : suc x * suc y ≡ suc (x * y + x + y) = omega arith in rw e (ground (arith, e))

signed64-signed_of :
    (s : Bool) (p : HiLo) (x : ℕ)
    → IsPair p
    → value64 p ≡ x
    → 0 < x
    → x ≤ 2 ^ 62
    → signed64 (value64 (if s then negate p else p)) ≡ signed_of s x
signed64-signed_of s p zero i e h b = absurd (omega arith)
signed64-signed_of true p (suc x) i e h b =
    let (i', e') = negate_lem p i (omega arith) in ground (arith, e')
signed64-signed_of false p (suc x) i e h b = ground arith

-- MULT of two words: the two result words, as a signed number of 64 bits, are the product of the
-- operands as signed numbers.
pub mult_lem :
    (a b : ℕ) → a < word → b < word → signed64 (value64 (mult a b true)) ≡ signed a *ℤ signed b
unfolding mult ◌*ℤ◌
mult_lem a b ha hb = elim (Bool-cases (a == 0 || b == 0)) [
  | inl z ↦ rw z (signed_zero a b z)
  | inr nz ↦
      let (i, e) = accumulate_lem (magnitude a) (magnitude b) (ground arith) (ground arith) in
      rw (nz, signed-signed_of a ha, signed-signed_of b hb, signed_of-*)
        (signed64-signed_of _ _ (magnitude a * magnitude b) i
          (e ∙ mul_comm (magnitude b) (magnitude a))
          (mul-pos (magnitude a) (magnitude b) (ground arith) (ground arith))
          (mul-lt_signed (magnitude a) (magnitude b) (ground arith) (ground arith)))
]
