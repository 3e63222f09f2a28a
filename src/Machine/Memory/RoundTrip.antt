-- ===== src/Machine/Memory/RoundTrip.antt =====
-- What WriteMem stores ReadMem gives back, through the page table.
use cs270hw.Base.{
  ℕ, suc, ◌^◌, ◌<◌, ◌≡◌, refl, sym, ◌∙◌, true, false, none, some, List, length, arith, ap,
}
use cs270hw.Machine.{Machine, Entry, Outcome, done, trap, stop, and_then, ◌>>=◌, raise_exception}
use cs270hw.Machine.Translate.{memory_size, Translation, fault, address, translate}
use cs270hw.Machine.Memory.{save, or_trap, read_mem, write_mem}
use cs270hw.Machine.Commands.{and_then-done, and_then-first, raise_exception-never}
use cs270hw.Machine.Memory.Bytes.{word_at, save_word, load_word}
use cs270hw.Machine.Memory.Again.{again}

-- On a machine with a page table of the size that it says, no TLB and all of its memory: when
-- WriteMem of a 32-bit word at a virtual address completes, ReadMem at that address completes with
-- that word.
pub read_mem-write_mem :
    (m m' : Machine) (va v : ℕ) (table : List Entry)
    → m.tlb ≡ none
    → m.page_table ≡ some table
    → length table ≡ m.page_table_size
    → length m.main_memory ≡ memory_size
    → v < 2 ^ 32
    → write_mem va 4 v m ≡ done tt m'
    → (m'' : Machine) × (read_mem va 4 m' ≡ done v m'')
unfolding write_mem read_mem or_trap
read_mem-write_mem m m' va v table no_tlb has len size small h =
    after_translate (translate va 4 true m) refl h
  where
    after_translate :
        (o : Outcome Translation)
        → translate va 4 true m ≡ o
        → and_then o (λ t. or_trap va t >>= λ pa. save 4 pa v) ≡ done tt m'
        → (m'' : Machine) × (read_mem va 4 m' ≡ done v m'')
    after_translate (done (address pa) m1) e h1 =
        let bytes : List ℕ = word_at m1.main_memory pa v in
        let (m'', r, same, kept, fits) = again m m1 va 4 pa table bytes no_tlb has len e in
        let within : suc (suc (suc pa)) < length m1.main_memory =
          (let l = ap length kept ∙ size in ground (arith, l, fits)) in
        let left : m' ≡ record m1 { main_memory = bytes } =
          ap (λ (o : Outcome (Unit {0})). elim o [ done _ k ↦ k | trap _ _ ↦ m1 | stop ↦ m1 ])
            (sym h1 ∙ save_word pa v m1 within) in
        (
          m'',
          ap (λ k. read_mem va 4 k) left
              ∙ (and_then-done (translate va 4 false (record m1 { main_memory = bytes })) _
                    (address pa) m'' r
                  ∙ load_word pa v m1.main_memory m'' within small same),
        )
    after_translate (done (fault x) m1) e h1 = absurd (
        and_then-first (raise_exception {A = ℕ} x va m1) _ tt m' (raise_exception-never x va m1) h1)
    after_translate (trap x m1) e h1 = cc
    after_translate stop e h1 = cc
