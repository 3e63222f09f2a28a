-- ===== src/Machine/Instr/Total.antt =====
-- What `Instruction::Decode` gives: an operation of the simulator's switch, for every word.
use cs270hw.Base.{
  ℕ, ◌/◌, ◌%◌, ◌^◌, ◌<◌, ◌≡◌, refl, Bool, true, false, Option, none, some, get_elem?, arith, inl,
  inr, passes, passes_lem, Bool-cases, ◌==◌,
}
use cs270hw.Machine.Instr.{
  Op, op_rfe, special, bcond, OpInfo, op_table, special_table, Instruction, extra_of, bcond_of,
  resolve, decode,
}

-- the cases of the switch in OneInstruction
abbrev pub in_switch : Op → Bool
in_switch op_rfe = false
in_switch special = false
in_switch bcond = false
in_switch op = true

-- the value of `p` where there is one
abbrev any : {A : Type 0} → (A → Bool) → Option A → Bool
any p none = false
any p (some a) = p a

any-some :
    {A : Type 0} (p : A → Bool) (o : Option A)
    → any p o ≡ true
    → (a : A) × (o ≡ some a) × (p a ≡ true)
any-some p none h = cc
any-some p (some a) h = (a, refl, h)

resolve_special : (value : ℕ) → any in_switch (get_elem? special_table (value % 2 ^ 6)) ≡ true
unfolding passes
resolve_special value =
    passes_lem (λ i. any in_switch (get_elem? special_table i)) 64 (value % 2 ^ 6) (omega arith)
      refl

bcond_of-in_switch : (i : ℕ) → in_switch (bcond_of i) ≡ true
bcond_of-in_switch i = elim (Bool-cases (i == 0)) [
  | inl a ↦ rw a refl
  | inr a ↦ elim (Bool-cases (i == 1)) [
    | inl b ↦ rw (a, b) refl
    | inr b ↦ elim (Bool-cases (i == 16)) [
      | inl c ↦ rw (a, b, c) refl
      | inr c ↦ elim (Bool-cases (i == 17)) [
        | inl d ↦ rw (a, b, c, d) refl
        | inr d ↦ rw (a, b, c, d) refl
      ]
    ]
  ]
]

-- An entry of the first table names a case of the switch, or one of the two markers.
abbrev in_table : OpInfo → Bool
in_table info = elim info.op_code [ op_rfe ↦ false | _ ↦ true ]

resolve-in_switch :
    (op : Op) (value : ℕ)
    → elim op [ op_rfe ↦ false | _ ↦ true ] ≡ true
    → any in_switch (resolve op value) ≡ true
unfolding resolve
resolve-in_switch special value h = resolve_special value
resolve-in_switch bcond value h = bcond_of-in_switch (value / 2 ^ 16 % 2 ^ 5)
resolve-in_switch op_rfe value h = cc
resolve-in_switch op value h = refl

-- The instruction of a word, once its operation is known.
abbrev fields : ℕ → OpInfo → Op → Instruction
fields value info op = record {
  op = op;
  rs = value / 2 ^ 21 % 2 ^ 5;
  rt = value / 2 ^ 16 % 2 ^ 5;
  rd = value / 2 ^ 11 % 2 ^ 5;
  extra = extra_of info.format value;
}

decode-found :
    (value : ℕ) (info : OpInfo) (op : Op)
    → get_elem? op_table (value / 2 ^ 26 % 2 ^ 6) ≡ some info
    → resolve info.op_code value ≡ some op
    → decode value ≡ some (fields value info op)
unfolding decode
decode-found value info op found is = rw (found, is, decode) refl

-- A word decodes to such an operation, with register numbers of the 32 general registers.
pub decode_total :
    (value : ℕ)
    → (i : Instruction) × (decode value ≡ some i)
      × (in_switch i.op ≡ true)
      × (i.rs < 32)
      × (i.rt < 32)
      × (i.rd < 32)
unfolding passes
decode_total value =
    let (info, found, ok) = any-some in_table (get_elem? op_table (value / 2 ^ 26 % 2 ^ 6)) (
      passes_lem (λ i. any in_table (get_elem? op_table i)) 64 (value / 2 ^ 26 % 2 ^ 6)
        (omega arith) refl) in
    let (op, is, cased) =
      any-some in_switch (resolve info.op_code value) (resolve-in_switch info.op_code value ok) in
    (
      fields value info op,
      decode-found value info op found is,
      cased,
      omega arith,
      omega arith,
      omega arith,
    )
