-- ===== src/Filesys/StubFile/Bytes.antt =====
-- A file of the host that is a size and a byte at each offset.
use cs270hw.Base.{
  ℕ, zero, suc, ◌+◌, ◌-◌, ◌<◌, ◌≤◌, ◌≡◌, ◌∙◌, ◌⊎◌, inl, inr, ap, refl, true, false, ◌&&◌, max, min,
  List, [], ◌∷◌, length, get_or, ltb, leb, if◌then◌else◌, arith,
}
use cs270hw.Filesys.StubFile.{Host, IsPosix}

abbrev pub ByteFile : Type 0
ByteFile = ℕ × (ℕ → ℕ)

abbrev pub bytes_from : (ℕ → ℕ) → ℕ → ℕ → List ℕ
bytes_from g zero start = []
bytes_from g (suc n) start = g start ∷ bytes_from g n (suc start)

-- the bytes with others from `position` on
abbrev pub over : (ℕ → ℕ) → List ℕ → ℕ → ℕ → ℕ
over g from position k =
    if leb position k && ltb k (position + length from) then get_or from (k - position) 0 else g k

abbrev pub byte_host : Host ByteFile
byte_host = record {
  read = λ f n start. bytes_from f.1 (min n (f.0 - start)) start;
  write = λ f from position. (max f.0 (position + length from), over f.1 from position);
  size = λ f. f.0;
}

bytes_from-list :
    (g : ℕ → ℕ) (from : List ℕ) (start : ℕ)
    → ((j : ℕ) → j < length from → g (start + j) ≡ get_or from j 0)
    → bytes_from g (length from) start ≡ from
bytes_from-list g [] start h = refl
bytes_from-list g (x ∷ xs) start h =
    let first : g start ≡ x = ap g (omega arith) ∙ h 0 (omega arith) in
    let others =
      bytes_from-list g xs (suc start) (λ j less. ap g (omega arith) ∙ h (suc j) (omega arith)) in
    rw (first, others) refl

bytes_from-ext :
    (g g' : ℕ → ℕ) (n start : ℕ)
    → ((k : ℕ) → start ≤ k → k < start + n → g k ≡ g' k)
    → bytes_from g n start ≡ bytes_from g' n start
bytes_from-ext g g' zero start h = refl
bytes_from-ext g g' (suc n) start h =
    let others = bytes_from-ext g g' n (suc start) (λ k lo hi. h k (omega arith) (omega arith)) in
    rw (h start (omega arith) (omega arith), others) refl

over_inside :
    (g : ℕ → ℕ) (from : List ℕ) (position j : ℕ)
    → j < length from
    → over g from position (position + j) ≡ get_or from j 0
over_inside g from position j less =
    let t : (leb position (position + j) && ltb (position + j) (position + length from)) ≡ true =
      ground arith in
    rw t (ap (λ k. get_or from k 0) (omega arith))

over_outside :
    (g : ℕ → ℕ) (from : List ℕ) (position k : ℕ)
    → (k < position) ⊎ (position + length from ≤ k)
    → over g from position k ≡ g k
over_outside g from position k apart =
    let t : (leb position k && ltb k (position + length from)) ≡ false = ground arith in rw t refl

apart_at :
    (position size n start k : ℕ)
    → (start + n ≤ position) ⊎ (position + size ≤ start)
    → start ≤ k
    → k < start + n
    → (k < position) ⊎ (position + size ≤ k)
apart_at position size n start k (inl b) lo hi = inl (omega arith)
apart_at position size n start k (inr a) lo hi = inr (omega arith)

pub byte_host-IsPosix : IsPosix byte_host
byte_host-IsPosix = record {
  grown = λ f from position more. refl;
  written = λ f from position.
      let all : min (length from) (max f.0 (position + length from) - position) ≡ length from =
        omega arith in
      rw all
        (bytes_from-list (over f.1 from position) from position (over_inside f.1 from position));
  unwritten = λ f from position n start inside apart.
      let new : min n (max f.0 (position + length from) - start) ≡ n = omega arith in
      let old : min n (f.0 - start) ≡ n = omega arith in
      rw (new, old)
        (bytes_from-ext (over f.1 from position) f.1 n start (λ k lo hi.
          over_outside f.1 from position k
            (apart_at position (length from) n start k apart lo hi)));
}
