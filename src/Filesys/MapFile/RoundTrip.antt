-- ===== src/Filesys/MapFile/RoundTrip.antt =====
-- A bitmap written to its file and fetched again.
use cs270hw.Base.{
  ℕ, zero, suc, ◌+◌, ◌*◌, ◌/◌, ◌%◌, ◌^◌, ◌<◌, ◌≤◌, ◌≡◌, ◌∙◌, ap, refl, sym, true, Option, some,
  List, [], ◌∷◌, ◌++◌, length, drop, get_or, slice, leb, arith,
}
use cs270hw.Base.Int.{ℤ}
use cs270hw.BitMap.{BitMap}
use cs270hw.Filesys.FileHeader.{FileHeader, file_length}
use cs270hw.Filesys.OpenFile.{Disk, read_at, blit}
use cs270hw.Filesys.OpenFile.Contents.{HasSectors, IsLaidOut}
use cs270hw.Filesys.OpenFile.Writing.{IsOutside}
use cs270hw.Filesys.OpenFile.RoundTrip.{write_at_inside, read_at-write_at}
use cs270hw.Filesys.MapFile.{bytes_of, words_of, fetch_from, write_back}

length-bytes_of : (ws : List ℕ) → length (bytes_of ws) ≡ length ws * 4
unfolding bytes_of
length-bytes_of [] = refl
length-bytes_of (w ∷ ws) = let t = length-bytes_of ws in omega arith

bytes_of_word :
    (w : ℕ)
    → w < 2 ^ 32
    → w % 2 ^ 8
        + w / 2 ^ 8 % 2 ^ 8 * 2 ^ 8
        + w / 2 ^ 16 % 2 ^ 8 * 2 ^ 16
        + w / 2 ^ 24 % 2 ^ 8 * 2 ^ 24
      ≡ w
bytes_of_word w h = omega arith

-- The bytes of 32-bit words are these words.
words_of-bytes_of :
    (ws : List ℕ) → ((i : ℕ) → get_or ws i 0 < 2 ^ 32) → words_of (bytes_of ws ++ []) ≡ ws
unfolding bytes_of words_of
words_of-bytes_of [] h = refl
words_of-bytes_of (w ∷ ws) h =
    rw (bytes_of_word w (h 0), words_of-bytes_of ws (λ i. h (suc i))) refl

module _ {ℓ} {A : Type ℓ} where
  slice-cons : (n i : ℕ) (x : A) (xs : List A) (d : A) → slice n (suc i) (x ∷ xs) d ≡ slice n i xs d
  slice-cons zero i x xs d = refl
  slice-cons (suc n) i x xs d = ap (λ r. get_or xs i d ∷ r) (slice-cons n (suc i) x xs d)

  slice-whole : (xs : List A) (d : A) → slice (length xs) 0 xs d ≡ xs
  slice-whole [] d = refl
  slice-whole (x ∷ xs) d = ap (λ r. x ∷ r) (slice-cons (length xs) 0 x xs d ∙ slice-whole xs d)

drop-all : (xs : List ℕ) (n : ℕ) → length xs ≤ n → drop n xs ≡ []
drop-all [] zero h = refl
drop-all [] (suc n) h = refl
drop-all (x ∷ xs) zero h = absurd (omega arith)
drop-all (x ∷ xs) (suc n) h = drop-all xs n (omega arith)

-- bcopy over a whole array
blit_whole : (dst src : List ℕ) → length src ≡ length dst → blit dst 0 src ≡ some (src ++ [])
blit_whole dst src h =
    let fits : leb (0 + length src) (length dst) ≡ true = ground arith in
    rw (fits, drop-all dst (0 + length src) (omega (arith, h))) refl

-- The map has `num_words` words of 32 bits.
pub record HasWords (m : BitMap) : Type 0 where
  pub size : length m.map ≡ m.num_words
  pub words : (i : ℕ) → get_or m.map i 0 < 2 ^ 32

module _ (blank : List ℤ) (fetch_map : Disk → Option BitMap)
    (store_map : BitMap → Disk → Option Disk) (fresh : ℕ → List ℕ)
    (sized : (n : ℕ) → length (fresh n) ≡ n) where
  -- the bytes of the words, in the file behind WriteBack
  write_back_lem :
      (h : FileHeader) (sec : ℕ → ℕ) (d : Disk) (m : BitMap)
      → IsLaidOut h sec
      → HasSectors d
      → HasWords m
      → 0 < m.num_words
      → m.num_words * 4 ≤ file_length h
      → (d' : Disk) × (write_back blank fetch_map store_map fresh h d m ≡ some (h, d'))
        × HasSectors d'
        × ((s : ℕ) → IsOutside h sec s → d' s ≡ d s)
        × (read_at h d' (m.num_words * 4) 0 ≡ some (bytes_of m.map))
  unfolding write_back
  write_back_lem h sec d m out whole sound more fits =
      let from = bytes_of m.map in
      let n = m.num_words * 4 in
      let more' : 0 < n = omega arith in
      let fits' : 0 + n ≤ file_length h = omega arith in
      let enough : n ≤ length from = omega (arith, length-bytes_of m.map, sound.size) in
      let (d', eq, whole', bytes, frame) =
        write_at_inside blank fetch_map store_map fresh sized h sec d out whole from n 0 more' fits'
          enough in
      let size : length from ≡ n = length-bytes_of m.map ∙ ap (λ k. k * 4) sound.size in
      let back : read_at h d' n 0 ≡ some (slice n 0 from 0) = rw eq at (
        read_at-write_at blank fetch_map store_map fresh sized h sec d out whole from n 0 more'
          fits' enough) in
      let all : slice n 0 from 0 ≡ from =
        ap (λ k. slice k 0 from 0) (sym size) ∙ slice-whole from 0 in
      (d', rw eq refl, whole', frame, back ∙ ap some all)

  -- WriteBack of a map of 32-bit words to an open file of direct sectors that has room for it comes to
  -- an end, leaves the header of the file as it is and changes no sector that is not one of the file.
  -- Then FetchFrom into a map of as many words gives that map the words written.
  pub fetch_from-write_back :
      (h : FileHeader) (sec : ℕ → ℕ) (d : Disk) (m m0 : BitMap)
      → IsLaidOut h sec
      → HasSectors d
      → HasWords m
      → 0 < m.num_words
      → m.num_words * 4 ≤ file_length h
      → length m0.map ≡ m.num_words
      → m0.num_words ≡ m.num_words
      → (d' : Disk) × (write_back blank fetch_map store_map fresh h d m ≡ some (h, d'))
        × HasSectors d'
        × ((s : ℕ) → IsOutside h sec s → d' s ≡ d s)
        × (fetch_from h d' m0 ≡ some (record m0 { map = m.map }))
  unfolding fetch_from
  fetch_from-write_back h sec d m m0 out whole sound more fits len same =
      let (d', eq, whole', frame, back) = write_back_lem h sec d m out whole sound more fits in
      let room : length (bytes_of m.map) ≡ length (bytes_of m0.map) =
        length-bytes_of m.map
        ∙ ap (λ k. k * 4) (sound.size ∙ sym len)
        ∙ sym (length-bytes_of m0.map) in
      let whole_map = blit_whole (bytes_of m0.map) (bytes_of m.map) room in
      let words = words_of-bytes_of m.map sound.words in
      (d', eq, whole', frame, rw (same, back, whole_map, words) refl)
