-- ===== src/Machine/Instr.antt =====
-- machine/mipssim.h and `Instruction::Decode` of machine/mipssim.cc: the operations and their encoding.
pub mod Total
use cs270hw.Base.{
  ℕ, suc, ◌*◌, ◌/◌, ◌%◌, ◌^◌, ◌-◌, ◌==◌, List, [], ◌∷◌, Option, none, some, get_elem?,
  if◌then◌else◌, leb, bit_or,
}

-- the OP_ codes, and the two that ask for further decoding
pub data Op : Type 0 where
  op_add op_addi op_addiu op_addu op_and op_andi op_beq op_bgez op_bgezal op_bgtz op_blez op_bltz
        op_bltzal op_bne :
      Op
  op_div op_divu op_j op_jal op_jalr op_jr op_lb op_lbu op_lh op_lhu op_lui op_lw op_lwl op_lwr : Op
  op_mfhi op_mflo op_mthi op_mtlo op_mult op_multu op_nor op_or op_ori op_rfe op_sb op_sh op_sll
        op_sllv :
      Op
  op_slt op_slti op_sltiu op_sltu op_sra op_srav op_srl op_srlv op_sub op_subu op_sw op_swl op_swr :
      Op
  op_xor op_xori op_syscall op_unimp op_res special bcond : Op

pub data Format : Type 0 where
  i_format j_format r_format : Format

pub record OpInfo : Type 0 where
  pub op_code : Op
  pub format : Format

abbrev i_fmt : Op → OpInfo
i_fmt op = record { op_code = op; format = i_format }

abbrev r_fmt : Op → OpInfo
r_fmt op = record { op_code = op; format = r_format }

abbrev j_fmt : Op → OpInfo
j_fmt op = record { op_code = op; format = j_format }

-- `opTable`
abbrev pub op_table : List OpInfo
op_table =
    r_fmt special
    ∷ i_fmt bcond
    ∷ j_fmt op_j
    ∷ j_fmt op_jal
    ∷ i_fmt op_beq
    ∷ i_fmt op_bne
    ∷ i_fmt op_blez
    ∷ i_fmt op_bgtz
    ∷ i_fmt op_addi
    ∷ i_fmt op_addiu
    ∷ i_fmt op_slti
    ∷ i_fmt op_sltiu
    ∷ i_fmt op_andi
    ∷ i_fmt op_ori
    ∷ i_fmt op_xori
    ∷ i_fmt op_lui
    ∷ i_fmt op_unimp
    ∷ i_fmt op_unimp
    ∷ i_fmt op_unimp
    ∷ i_fmt op_unimp
    ∷ i_fmt op_res
    ∷ i_fmt op_res
    ∷ i_fmt op_res
    ∷ i_fmt op_res
    ∷ i_fmt op_res
    ∷ i_fmt op_res
    ∷ i_fmt op_res
    ∷ i_fmt op_res
    ∷ i_fmt op_res
    ∷ i_fmt op_res
    ∷ i_fmt op_res
    ∷ i_fmt op_res
    ∷ i_fmt op_lb
    ∷ i_fmt op_lh
    ∷ i_fmt op_lwl
    ∷ i_fmt op_lw
    ∷ i_fmt op_lbu
    ∷ i_fmt op_lhu
    ∷ i_fmt op_lwr
    ∷ i_fmt op_res
    ∷ i_fmt op_sb
    ∷ i_fmt op_sh
    ∷ i_fmt op_swl
    ∷ i_fmt op_sw
    ∷ i_fmt op_res
    ∷ i_fmt op_res
    ∷ i_fmt op_swr
    ∷ i_fmt op_res
    ∷ i_fmt op_unimp
    ∷ i_fmt op_unimp
    ∷ i_fmt op_unimp
    ∷ i_fmt op_unimp
    ∷ i_fmt op_res
    ∷ i_fmt op_res
    ∷ i_fmt op_res
    ∷ i_fmt op_res
    ∷ i_fmt op_unimp
    ∷ i_fmt op_unimp
    ∷ i_fmt op_unimp
    ∷ i_fmt op_unimp
    ∷ i_fmt op_res
    ∷ i_fmt op_res
    ∷ i_fmt op_res
    ∷ i_fmt op_res
    ∷ []

-- `specialTable`
abbrev pub special_table : List Op
special_table =
    op_sll ∷ op_res ∷ op_srl ∷ op_sra ∷ op_sllv ∷ op_res ∷ op_srlv ∷ op_srav ∷ op_jr ∷ op_jalr
    ∷ op_res ∷ op_res ∷ op_syscall ∷ op_unimp ∷ op_res ∷ op_res ∷ op_mfhi ∷ op_mthi ∷ op_mflo
    ∷ op_mtlo ∷ op_res ∷ op_res ∷ op_res ∷ op_res ∷ op_mult ∷ op_multu ∷ op_div ∷ op_divu ∷ op_res
    ∷ op_res ∷ op_res ∷ op_res ∷ op_add ∷ op_addu ∷ op_sub ∷ op_subu ∷ op_and ∷ op_or ∷ op_xor
    ∷ op_nor ∷ op_res ∷ op_res ∷ op_slt ∷ op_sltu ∷ op_res ∷ op_res ∷ op_res ∷ op_res ∷ op_res
    ∷ op_res ∷ op_res ∷ op_res ∷ op_res ∷ op_res ∷ op_res ∷ op_res ∷ op_res ∷ op_res ∷ op_res
    ∷ op_res ∷ op_res ∷ op_res ∷ op_res ∷ op_res ∷ []

-- `Instruction`
pub record Instruction : Type 0 where
  pub op : Op
  pub rs : ℕ
  pub rt : ℕ
  pub rd : ℕ
  pub extra : ℕ

-- the immediate operand
unfoldable pub extra_of : Format → ℕ → ℕ
extra_of i_format value =
    let low : ℕ = value % 2 ^ 16 in if leb (2 ^ 15) low then bit_or low (2 ^ 32 - 2 ^ 16) else low
extra_of r_format value = value / 2 ^ 6 % 2 ^ 5
extra_of j_format value = value % 2 ^ 26

-- `value & 0x1f0000` selects among the branches on a sign.
abbrev pub bcond_of : ℕ → Op
bcond_of i =
    if i == 0
    then op_bltz
    else if i == 1
    then op_bgez
    else if i == 16
    then op_bltzal
    else if i == 17
    then op_bgezal
    else op_unimp

unfoldable pub resolve : Op → ℕ → Option Op
resolve special value = get_elem? special_table (value % 2 ^ 6)
resolve bcond value = some (bcond_of (value / 2 ^ 16 % 2 ^ 5))
resolve op value = some op

-- `Instruction::Decode`; `none` is a read outside the tables
unfoldable pub decode : ℕ → Option Instruction
decode value = elim (get_elem? op_table (value / 2 ^ 26 % 2 ^ 6)) [
  | none ↦ none
  | some info ↦ elim (resolve info.op_code value) [
    | none ↦ none
    | some op ↦ some (record {
      op = op;
      rs = value / 2 ^ 21 % 2 ^ 5;
      rt = value / 2 ^ 16 % 2 ^ 5;
      rd = value / 2 ^ 11 % 2 ^ 5;
      extra = extra_of info.format value;
    })
  ]
]
