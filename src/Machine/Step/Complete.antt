-- ===== src/Machine/Step/Complete.antt =====
-- The end of OneInstruction, on a machine whose register file is whole.
use cs270hw.Base.{
  ℕ, ◌<◌, ◌≡◌, ◌∙◌, ap, refl, List, get_or, set, length, length-set, get_or-set, ◌==◌, arith,
  if◌then◌else◌,
}
use cs270hw.Machine.{
  Machine, done, Cmd, and_then, reg, set_reg, delayed_load, num_total_regs, pc_reg, next_pc_reg,
  prev_pc_reg, load_reg, load_value_reg,
}
use cs270hw.Machine.Commands.{value, and_then-done, reg_lem, set_reg_lem}
use cs270hw.Machine.Effect.{Effect}
use cs270hw.Machine.Step.{complete}

-- All registers are there, and the pending load is for a general register.
pub record IsWhole (m : Machine) : Type 0 where
  pub whole : length m.registers ≡ num_total_regs
  pub pending : get_or m.registers load_reg 0 < 32

-- One register file after another, each the one before with a register written.
store_lem :
    {B : Type 0} (regs : List ℕ) (r v : ℕ) (m : Machine) (k : Cmd B)
    → length regs ≡ num_total_regs
    → r < num_total_regs
    → and_then (set_reg r v (record m { registers = regs })) (λ _. k)
      ≡ k (record m { registers = set regs r v })
store_lem regs r v m k whole h =
    and_then-done (set_reg r v (record m { registers = regs })) (λ _. k) tt
      (record m { registers = set regs r v })
      (set_reg_lem r v (record m { registers = regs }) (omega (arith, whole, h)))

look_lem :
    {B : Type 0} (regs : List ℕ) (r : ℕ) (m : Machine) (k : ℕ → Cmd B)
    → length regs ≡ num_total_regs
    → r < num_total_regs
    → and_then (reg r (record m { registers = regs })) k
      ≡ k (get_or regs r 0) (record m { registers = regs })
look_lem regs r m k whole h =
    and_then-done (reg r (record m { registers = regs })) k (get_or regs r 0)
      (record m { registers = regs })
      (reg_lem r (record m { registers = regs }) (omega (arith, whole, h)))

abbrev loaded : List ℕ → ℕ → ℕ → List ℕ
loaded regs r v =
    set
      (set (set (set regs (get_or regs load_reg 0) (get_or regs load_value_reg 0)) load_reg r)
        load_value_reg v)
      0 0

length-loaded : (regs : List ℕ) (r v : ℕ) → length (loaded regs r v) ≡ length regs
length-loaded regs r v =
    let a = set regs (get_or regs load_reg 0) (get_or regs load_value_reg 0) in
    let b = set a load_reg r in
    let c = set b load_value_reg v in
    length-set c 0 0
    ∙ length-set b load_value_reg v
    ∙ length-set a load_reg r
    ∙ length-set regs (get_or regs load_reg 0) (get_or regs load_value_reg 0)

pub delayed_load_lem :
    (regs : List ℕ) (r v : ℕ) (m : Machine)
    → length regs ≡ num_total_regs
    → get_or regs load_reg 0 < 32
    → delayed_load r v (record m { registers = regs })
      ≡ done tt (record m { registers = loaded regs r v })
unfolding delayed_load
delayed_load_lem regs r v m whole h =
    let target = get_or regs load_reg 0 in
    let a = set regs target (get_or regs load_value_reg 0) in
    let b = set a load_reg r in
    let c = set b load_value_reg v in
    let la = length-set regs target (get_or regs load_value_reg 0) ∙ whole in
    let lb = length-set a load_reg r ∙ la in
    let lc = length-set b load_value_reg v ∙ lb in
    look_lem regs load_reg m _ whole (omega arith)
    ∙ (look_lem regs load_value_reg m _ whole (omega arith)
        ∙ (store_lem regs target (get_or regs load_value_reg 0) m _ whole (omega arith)
            ∙ (store_lem a load_reg r m _ la (omega arith)
                ∙ (store_lem b load_value_reg v m _ lb (omega arith)
                    ∙ set_reg_lem 0 0 (record m { registers = c }) (omega (arith, lc))))))

-- the registers at the end of an instruction
abbrev completed : List ℕ → Effect → List ℕ
completed regs e =
    let l : List ℕ = loaded regs e.next_load_reg e.next_load_value in
    let p : List ℕ = set l prev_pc_reg (get_or l pc_reg 0) in
    set (set p pc_reg (get_or p next_pc_reg 0)) next_pc_reg e.pc_after

complete-run :
    (regs : List ℕ) (e : Effect) (m : Machine)
    → length regs ≡ num_total_regs
    → get_or regs load_reg 0 < 32
    → complete e (record m { registers = regs })
      ≡ done tt (record m { registers = completed regs e })
unfolding complete
complete-run regs e m whole h =
    let l : List ℕ = loaded regs e.next_load_reg e.next_load_value in
    let p : List ℕ = set l prev_pc_reg (get_or l pc_reg 0) in
    let q : List ℕ = set p pc_reg (get_or p next_pc_reg 0) in
    let ll = length-loaded regs e.next_load_reg e.next_load_value ∙ whole in
    let lp = length-set l prev_pc_reg (get_or l pc_reg 0) ∙ ll in
    let lq = length-set p pc_reg (get_or p next_pc_reg 0) ∙ lp in
    and_then-done _ _ tt (record m { registers = l })
      (delayed_load_lem regs e.next_load_reg e.next_load_value m whole h)
    ∙ (look_lem l pc_reg m _ ll (omega arith)
        ∙ (store_lem l prev_pc_reg (get_or l pc_reg 0) m _ ll (omega arith)
            ∙ (look_lem p next_pc_reg m _ lp (omega arith)
                ∙ (store_lem p pc_reg (get_or p next_pc_reg 0) m _ lp (omega arith)
                    ∙ set_reg_lem next_pc_reg e.pc_after (record m { registers = q })
                        (omega (arith, lq))))))

loaded_at :
    (regs : List ℕ) (r v j : ℕ)
    → length regs ≡ num_total_regs
    → get_or regs load_reg 0 < 32
    → get_or (loaded regs r v) j 0 ≡ (
        if j == 0
        then 0
        else if j == load_value_reg
        then v
        else if j == load_reg
        then r
        else if j == get_or regs load_reg 0
        then get_or regs load_value_reg 0
        else get_or regs j 0)
loaded_at regs r v j whole h =
    let target = get_or regs load_reg 0 in
    let a = set regs target (get_or regs load_value_reg 0) in
    let b = set a load_reg r in
    let c = set b load_value_reg v in
    let la = length-set regs target (get_or regs load_value_reg 0) ∙ whole in
    let lb = length-set a load_reg r ∙ la in
    let lc = length-set b load_value_reg v ∙ lb in
    get_or-set c 0 j 0 0 (omega (arith, lc))
    ∙ ap (λ x. if j == 0 then 0 else x)
        (get_or-set b load_value_reg j v 0 (omega (arith, lb))
          ∙ ap (λ x. if j == load_value_reg then v else x)
              (get_or-set a load_reg j r 0 (omega (arith, la))
                ∙ ap (λ x. if j == load_reg then r else x)
                    (get_or-set regs target j (get_or regs load_value_reg 0) 0
                      (omega (arith, whole)))))

completed_at :
    (regs : List ℕ) (e : Effect) (j : ℕ)
    → length regs ≡ num_total_regs
    → get_or regs load_reg 0 < 32
    → get_or (completed regs e) j 0 ≡ (
        if j == next_pc_reg
        then e.pc_after
        else if j == pc_reg
        then get_or regs next_pc_reg 0
        else if j == prev_pc_reg
        then get_or regs pc_reg 0
        else get_or (loaded regs e.next_load_reg e.next_load_value) j 0)
completed_at regs e j whole h =
    let l : List ℕ = loaded regs e.next_load_reg e.next_load_value in
    let p : List ℕ = set l prev_pc_reg (get_or l pc_reg 0) in
    let q : List ℕ = set p pc_reg (get_or p next_pc_reg 0) in
    let ll = length-loaded regs e.next_load_reg e.next_load_value ∙ whole in
    let lp = length-set l prev_pc_reg (get_or l pc_reg 0) ∙ ll in
    let lq = length-set p pc_reg (get_or p next_pc_reg 0) ∙ lp in
    let pc : get_or l pc_reg 0 ≡ get_or regs pc_reg 0 =
      ground (arith, loaded_at regs e.next_load_reg e.next_load_value pc_reg whole h, h) in
    let next : get_or p next_pc_reg 0 ≡ get_or regs next_pc_reg 0 = ground (
      arith,
      get_or-set l prev_pc_reg next_pc_reg (get_or l pc_reg 0) 0 (omega (arith, ll)),
      loaded_at regs e.next_load_reg e.next_load_value next_pc_reg whole h,
      h,
    ) in
    get_or-set q next_pc_reg j e.pc_after 0 (omega (arith, lq))
    ∙ ap (λ x. if j == next_pc_reg then e.pc_after else x)
        (get_or-set p pc_reg j (get_or p next_pc_reg 0) 0 (omega (arith, lp))
          ∙ ap (λ x. if j == pc_reg then x else get_or p j 0) next
          ∙ ap (λ x. if j == pc_reg then get_or regs next_pc_reg 0 else x)
              (get_or-set l prev_pc_reg j (get_or l pc_reg 0) 0 (omega (arith, ll))
                ∙ ap (λ x. if j == prev_pc_reg then x else get_or l j 0) pc))

-- What the end of an instruction does to a whole register file: the program counters move on by the
-- branch delay, register 0 is zero, the load that was pending arrives, and the new one is pending.
pub record Completed (m m' : Machine) (e : Effect) : Type 0 where
  pub zero_reg : value m' 0 ≡ 0
  pub previous : value m' prev_pc_reg ≡ value m pc_reg
  pub current : value m' pc_reg ≡ value m next_pc_reg
  pub following : value m' next_pc_reg ≡ e.pc_after
  pub arrived :
      (r : ℕ)
      → 0 < r
      → r < 32
      → value m' r ≡ (if r == value m load_reg then value m load_value_reg else value m r)
  pub waiting : value m' load_reg ≡ e.next_load_reg
  pub waiting_value : value m' load_value_reg ≡ e.next_load_value
  pub again : IsWhole m'
  pub memory : m'.main_memory ≡ m.main_memory

-- On a machine with all its registers whose pending load is for a general register, the end of
-- OneInstruction completes: the program counters move on by the branch delay, register 0 is zero,
-- the pending load arrives, the new one is pending, memory stays, and the machine is again of this
-- kind.
pub complete_lem :
    (m : Machine) (e : Effect)
    → IsWhole m
    → e.next_load_reg < 32
    → (m' : Machine) × (complete e m ≡ done tt m') × Completed m m' e
complete_lem m e w small =
    let at = λ (j : ℕ). completed_at m.registers e j w.whole w.pending in
    let load_at =
      λ (j : ℕ). loaded_at m.registers e.next_load_reg e.next_load_value j w.whole w.pending in
    let l : List ℕ = loaded m.registers e.next_load_reg e.next_load_value in
    let p : List ℕ = set l prev_pc_reg (get_or l pc_reg 0) in
    let q : List ℕ = set p pc_reg (get_or p next_pc_reg 0) in
    (
      record m { registers = completed m.registers e },
      complete-run m.registers e m w.whole w.pending,
      record {
        zero_reg = at 0 ∙ load_at 0;
        previous = at prev_pc_reg;
        current = at pc_reg;
        following = at next_pc_reg;
        arrived = λ r pos bound. ground (arith, at r, load_at r);
        waiting = at load_reg ∙ load_at load_reg;
        waiting_value = at load_value_reg ∙ load_at load_value_reg;
        again = record {
          whole =
              length-set q next_pc_reg e.pc_after
              ∙ length-set p pc_reg (get_or p next_pc_reg 0)
              ∙ length-set l prev_pc_reg (get_or l pc_reg 0)
              ∙ length-loaded m.registers e.next_load_reg e.next_load_value
              ∙ w.whole;
          pending = rw (at load_reg ∙ load_at load_reg) small;
        };
        memory = refl;
      },
    )
