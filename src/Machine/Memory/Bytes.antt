-- ===== src/Machine/Memory/Bytes.antt =====
-- A word as four bytes of memory, and that loading undoes saving.
use cs270hw.Base.{
  ℕ, suc, ◌+◌, ◌*◌, ◌/◌, ◌%◌, ◌^◌, ◌<◌, ◌≡◌, ◌∙◌, true, Option, some, List, get_elem?, set, length,
  arith, ltb, get_elem?-set_self, get_elem?-set_ne, ap, length-set, lt→ltb,
}
use cs270hw.Machine.{Machine, done}
use cs270hw.Machine.Memory.{byte, set_byte, load, save}
use cs270hw.Machine.Commands.{and_then-done}

-- the four bytes of a word, stored from `i` on
abbrev pub word_at : List ℕ → ℕ → ℕ → List ℕ
word_at xs i v =
    set
      (set (set (set xs i (v % 2 ^ 8)) (suc i) (v / 2 ^ 8 % 2 ^ 8)) (suc (suc i))
        (v / 2 ^ 16 % 2 ^ 8))
      (suc (suc (suc i))) (v / 2 ^ 24 % 2 ^ 8)

get_elem?-set_later :
    (xs : List ℕ) (i j v : ℕ) {r : Option ℕ}
    → i < j
    → get_elem? xs i ≡ r
    → get_elem? (set xs j v) i ≡ r
get_elem?-set_later xs i j v h e = get_elem?-set_ne xs v (λ f. absurd (omega arith)) ∙ e

set_byte_lem :
    (i b : ℕ) (m : Machine)
    → ltb i (length m.main_memory) ≡ true
    → set_byte i b m ≡ done tt (record m { main_memory = set m.main_memory i b })
unfolding set_byte
set_byte_lem i b m h = rw (h, set_byte)

byte_lem : (i b : ℕ) (m : Machine) → get_elem? m.main_memory i ≡ some b → byte i m ≡ done b m
unfolding byte
byte_lem i b m h = rw (h, byte)

pub save_word :
    (i v : ℕ) (m : Machine)
    → suc (suc (suc i)) < length m.main_memory
    → save 4 i v m ≡ done tt (record m { main_memory = word_at m.main_memory i v })
unfolding save
save_word i v m h =
    let mem1 = set m.main_memory i (v % 2 ^ 8) in
    let mem2 = set mem1 (suc i) (v / 2 ^ 8 % 2 ^ 8) in
    let mem3 = set mem2 (suc (suc i)) (v / 2 ^ 16 % 2 ^ 8) in
    let h0 : ltb i (length m.main_memory) ≡ true = lt→ltb i _ (omega arith) in
    let h1 : ltb (suc i) (length m.main_memory) ≡ true = lt→ltb (suc i) _ (omega arith) in
    let h2 : ltb (suc (suc i)) (length m.main_memory) ≡ true =
      lt→ltb (suc (suc i)) _ (omega arith) in
    let h3 : ltb (suc (suc (suc i))) (length m.main_memory) ≡ true =
      lt→ltb (suc (suc (suc i))) _ h in
    let l1 : length mem1 ≡ length m.main_memory = length-set m.main_memory i (v % 2 ^ 8) in
    let l2 : length mem2 ≡ length m.main_memory =
      length-set mem1 (suc i) (v / 2 ^ 8 % 2 ^ 8) ∙ l1 in
    let l3 : length mem3 ≡ length m.main_memory =
      length-set mem2 (suc (suc i)) (v / 2 ^ 16 % 2 ^ 8) ∙ l2 in
    and_then-done _ _ tt (record m { main_memory = mem1 }) (set_byte_lem i _ m h0)
    ∙ (and_then-done _ _ tt (record m { main_memory = mem2 })
          (set_byte_lem (suc i) _ (record m { main_memory = mem1 }) (ap (ltb (suc i)) l1 ∙ h1))
        ∙ (and_then-done _ _ tt (record m { main_memory = mem3 })
              (set_byte_lem (suc (suc i)) _ (record m { main_memory = mem2 })
                (ap (ltb (suc (suc i))) l2 ∙ h2))
            ∙ set_byte_lem (suc (suc (suc i))) _ (record m { main_memory = mem3 })
                (ap (ltb (suc (suc (suc i)))) l3 ∙ h3)))

pub load_word :
    (i v : ℕ) (xs : List ℕ) (m : Machine)
    → suc (suc (suc i)) < length xs
    → v < 2 ^ 32
    → m.main_memory ≡ word_at xs i v
    → load 4 i m ≡ done v m
unfolding load
load_word i v xs m h small e =
    let set1 = set xs i (v % 2 ^ 8) in
    let set2 = set set1 (suc i) (v / 2 ^ 8 % 2 ^ 8) in
    let set3 = set set2 (suc (suc i)) (v / 2 ^ 16 % 2 ^ 8) in
    let l1 = length-set xs i (v % 2 ^ 8) in
    let l2 = length-set set1 (suc i) (v / 2 ^ 8 % 2 ^ 8) ∙ l1 in
    let l3 = length-set set2 (suc (suc i)) (v / 2 ^ 16 % 2 ^ 8) ∙ l2 in
    let b0 : get_elem? (word_at xs i v) i ≡ some (v % 2 ^ 8) =
      get_elem?-set_later set3 i _ _ (omega arith) (
        get_elem?-set_later set2 i _ _ (omega arith) (
          get_elem?-set_later set1 i _ _ (omega arith)
            (get_elem?-set_self xs i _ (omega arith)))) in
    let b1 : get_elem? (word_at xs i v) (suc i) ≡ some (v / 2 ^ 8 % 2 ^ 8) =
      get_elem?-set_later set3 (suc i) _ _ (omega arith) (
        get_elem?-set_later set2 (suc i) _ _ (omega arith)
          (get_elem?-set_self set1 (suc i) _ (omega (arith, l1)))) in
    let b2 : get_elem? (word_at xs i v) (suc (suc i)) ≡ some (v / 2 ^ 16 % 2 ^ 8) =
      get_elem?-set_later set3 (suc (suc i)) _ _ (omega arith)
        (get_elem?-set_self set2 (suc (suc i)) _ (omega (arith, l2))) in
    let b3 : get_elem? (word_at xs i v) (suc (suc (suc i))) ≡ some (v / 2 ^ 24 % 2 ^ 8) =
      get_elem?-set_self set3 (suc (suc (suc i))) _ (omega (arith, l3)) in
    let sum : v % 2 ^ 8
          + 2 ^ 8 * (v / 2 ^ 8 % 2 ^ 8)
          + 2 ^ 16 * (v / 2 ^ 16 % 2 ^ 8)
          + 2 ^ 24 * (v / 2 ^ 24 % 2 ^ 8)
        ≡ v =
      omega arith in
    and_then-done _ _ _ m (byte_lem i _ m (ap (λ ys. get_elem? ys i) e ∙ b0))
    ∙ (and_then-done _ _ _ m (byte_lem (suc i) _ m (ap (λ ys. get_elem? ys (suc i)) e ∙ b1))
        ∙ (and_then-done _ _ _ m
              (byte_lem (suc (suc i)) _ m (ap (λ ys. get_elem? ys (suc (suc i))) e ∙ b2))
            ∙ (and_then-done _ _ _ m (
                  byte_lem (suc (suc (suc i))) _ m
                    (ap (λ ys. get_elem? ys (suc (suc (suc i)))) e ∙ b3))
                ∙ ap (λ w. done w m) sum)))
