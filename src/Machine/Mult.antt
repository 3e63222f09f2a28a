-- ===== src/Machine/Mult.antt =====
-- `Mult` of machine/mipssim.cc: the 64-bit product of two words by shifts and sums.
pub mod Product
use cs270hw.Base.{
  ℕ, zero, suc, ◌+◌, ◌-◌, ◌*◌, ◌/◌, ◌%◌, Bool, true, false, ltb, ◌==◌, ◌||◌, ◌&&◌, not,
  if◌then◌else◌, bit_or,
}
use cs270hw.Machine.Word.{word, add, neg, complement, is_neg, shl, asr}

-- the two result words
pub record HiLo : Type 0 where
  pub hi : ℕ
  pub lo : ℕ

-- the sum `(hi, lo) + (b_hi, b_lo)` of one round
pub add_pair : HiLo → ℕ → ℕ → HiLo
add_pair p b_hi b_lo =
    let lo : ℕ = add p.lo b_lo in
    record { hi = add (add p.hi (if ltb lo b_lo then 1 else 0)) b_hi; lo = lo }

-- the rounds of the loop
pub mult_loop : ℕ → ℕ → ℕ → ℕ → HiLo → HiLo
mult_loop zero a b_hi b_lo p = p
mult_loop (suc n) a b_hi b_lo p =
    let q : HiLo = if a % 2 == 1 then add_pair p b_hi b_lo else p in
    let b_hi' : ℕ = if is_neg b_lo then bit_or (shl b_hi 1) 1 else shl b_hi 1 in
    let rest : HiLo = mult_loop n (asr a 1) b_hi' (shl b_lo 1) q in
    if a % 2 == 1 && a / 2 == 0 then q else rest

-- the two's complement of the pair
pub negate : HiLo → HiLo
negate p =
    let lo : ℕ = add (complement p.lo) 1 in
    record { hi = if lo == 0 then add (complement p.hi) 1 else complement p.hi; lo = lo }

-- the loop from zero: `a` and `b` as unsigned words
pub accumulate : ℕ → ℕ → HiLo
unfolding mult_loop add_pair
accumulate a b = mult_loop 32 a 0 b (record { hi = 0; lo = 0 })

unfoldable pub mult : ℕ → ℕ → Bool → HiLo
mult a b signed_arith =
    let a_neg : Bool = signed_arith && is_neg a in
    let b_neg : Bool = signed_arith && is_neg b in
    let p : HiLo = accumulate (if a_neg then neg a else a) (if b_neg then neg b else b) in
    if a == 0 || b == 0
    then record { hi = 0; lo = 0 }
    else if (if b_neg then not a_neg else a_neg)
    then negate p
    else p
