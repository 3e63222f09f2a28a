-- ===== src/Machine/Tests.antt =====
-- The theorems on the machine at a concrete machine.
use cs270hw.Base.{
  ◌-◌, ◌<◌, ◌≡◌, refl, true, false, none, some, List, [], ◌∷◌, replicate, arith, set,
}
use cs270hw.Machine.{Machine, Entry, Cmd, done}
use cs270hw.Machine.Word.{word, signed}
use cs270hw.Base.Int.{◌*ℤ◌}
use cs270hw.Machine.Mult.{mult}
use cs270hw.Machine.Mult.Product.{value64, signed64, mult_lem}
use cs270hw.Machine.Translate.{
  translate, memory_size, misaligned, via_tables, via_page_table, use_entry, touched,
}
use cs270hw.Machine.Memory.{read_mem, write_mem, save, set_byte, or_trap}
use cs270hw.Machine.Memory.RoundTrip.{read_mem-write_mem}
use cs270hw.Machine.Instr.{Instruction, decode}
use cs270hw.Machine.Step.Cases.{decode_lem}
use cs270hw.Machine.Effect.{Effect}
use cs270hw.Machine.Step.{complete, exec_sums}
use cs270hw.Machine.Step.Complete.{IsWhole, Completed, complete_lem}

-- one page of virtual memory, in frame 3
abbrev entries : List Entry
entries =
    record {
      virtual_page = 0;
      physical_page = 3;
      valid = true;
      read_only = false;
      used = false;
      dirty = false;
    }
    ∷ []

-- register 5 holds -8, a load of 7 into register 2 is pending
abbrev start : Machine
start = record {
  main_memory = replicate memory_size 0;
  registers = set (set (set (replicate 40 0) 5 (word - 8)) 37 2) 38 7;
  tlb = none;
  page_table = some entries;
  page_table_size = 1;
}

start-IsWhole : IsWhole start
start-IsWhole = record { whole = refl; pending = omega arith }

mult_lem_example : signed64 (value64 (mult 4294967288 5 true)) ≡ signed 4294967288 *ℤ signed 5
mult_lem_example = mult_lem 4294967288 5 (omega arith) (omega arith)

decode_lem_example :
    (i : Instruction) × (c : Cmd Effect) × (decode 16909320 ≡ some i)
    × (exec_sums i.op i 8 ≡ some c)
    × (i.rs < 32)
    × (i.rt < 32)
    × (i.rd < 32)
decode_lem_example = decode_lem 16909320 8

abbrev nothing : Effect
nothing = record { pc_after = 8; next_load_reg = 3; next_load_value = 9 }

complete_lem_example :
    (m' : Machine) × (complete nothing start ≡ done tt m') × Completed start m' nothing
complete_lem_example = complete_lem start nothing start-IsWhole (omega arith)

-- after the word 0x12345678 is written at address 8
abbrev written : Machine
written = record start {
  main_memory = set (set (set (set (replicate memory_size 0) 392 120) 393 86) 394 52) 395 18;
  page_table = some (
      record {
        virtual_page = 0;
        physical_page = 3;
        valid = true;
        read_only = false;
        used = true;
        dirty = true;
      }
      ∷ []);
}

write_run : write_mem 8 4 305419896 start ≡ done tt written
unfolding write_mem translate misaligned via_tables via_page_table use_entry touched save set_byte
    or_trap
write_run = refl

read_mem-write_mem_example : (m'' : Machine) × (read_mem 8 4 written ≡ done 305419896 m'')
read_mem-write_mem_example =
    read_mem-write_mem start written 8 305419896 entries refl refl refl refl (omega arith) write_run
