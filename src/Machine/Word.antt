-- ===== src/Machine/Word.antt =====
-- 32-bit words: the operators of C on `int` and `unsigned int`, over bit patterns.
use cs270hw.Base.{
  ℕ, ◌+◌, ◌-◌, ◌*◌, ◌/◌, ◌%◌, ◌^◌, Bool, ltb, leb, ◌==◌, not, if◌then◌else◌, bit_and,
}
use cs270hw.Base.Int.{ℤ, pos, negsuc}

abbrev pub word : ℕ
word = 2 ^ 32

abbrev pub sign_bit : ℕ
sign_bit = 2 ^ 31

abbrev pub add : ℕ → ℕ → ℕ
add a b = (a + b) % word

abbrev pub sub : ℕ → ℕ → ℕ
sub a b = (a + word - b) % word

-- `-a`
abbrev pub neg : ℕ → ℕ
neg a = (word - a) % word

-- `~a`
abbrev pub complement : ℕ → ℕ
complement a = word - 1 - a

-- the sign of an `int`
abbrev pub is_neg : ℕ → Bool
is_neg a = leb sign_bit a

-- `a & SIGN_BIT`, as a test
abbrev pub has_sign : ℕ → Bool
has_sign a = not (bit_and a sign_bit == 0)

-- `a < b` between `int`s
abbrev pub less : ℕ → ℕ → Bool
less a b = ltb (add a sign_bit) (add b sign_bit)

-- `a << k`
abbrev pub shl : ℕ → ℕ → ℕ
shl a k = a * 2 ^ k % word

-- `a >> k` of an `int`: the sign is shifted in
abbrev pub asr : ℕ → ℕ → ℕ
asr a k = if is_neg a then word - 1 - (word - 1 - a) / 2 ^ k else a / 2 ^ k

-- the integer that a pattern stands for
abbrev pub signed : ℕ → ℤ
signed a = if is_neg a then negsuc (word - a - 1) else pos a

-- the size of an `int` without its sign
abbrev pub magnitude : ℕ → ℕ
magnitude a = if is_neg a then neg a else a

-- `a / b` of `int`s, rounded to zero, for `b` other than 0
abbrev pub quotient : ℕ → ℕ → ℕ
quotient a b =
    let q : ℕ = magnitude a / magnitude b in
    if is_neg a then (if is_neg b then q else neg q) else if is_neg b then neg q else q

-- `a % b` of `int`s: its sign is the sign of `a`
abbrev pub remainder : ℕ → ℕ → ℕ
remainder a b = let r : ℕ = magnitude a % magnitude b in if is_neg a then neg r else r
