-- ===== src/Machine/Commands.antt =====
-- How commands of the machine run: the laws of their composition, and of registers.
use cs270hw.Base.{ℕ, ◌<◌, ◌≡◌, ◌≢◌, refl, get_or, set, length, get_elem?-get_or, ap, lt→ltb}
use cs270hw.Machine.{
  Machine, Exception, Outcome, done, trap, stop, Cmd, and_then, raise_exception, reg, set_reg,
  delayed_load, bad_vaddr_reg,
}

module _ {A B : Type 0} where
  -- A command that only ends in a trap never completes.
  pub and_then-never :
      (o : Outcome A) (k : A → Cmd B) (b : B) (m : Machine)
      → ((a : A) (m' : Machine) → k a m' ≢ done b m)
      → and_then o k ≢ done b m
  and_then-never (done a m') k b m h = h a m'
  and_then-never (trap e m') k b m h = λ q. cc
  and_then-never stop k b m h = λ q. cc

  pub and_then-first :
      (o : Outcome A) (k : A → Cmd B) (b : B) (m : Machine)
      → ((a : A) (m' : Machine) → o ≢ done a m')
      → and_then o k ≢ done b m
  and_then-first (done a m') k b m h = λ q. h a m' refl
  and_then-first (trap e m') k b m h = λ q. cc
  and_then-first stop k b m h = λ q. cc

  pub and_then-done :
      (o : Outcome A) (k : A → Cmd B) (a : A) (m : Machine) → o ≡ done a m → and_then o k ≡ k a m
  and_then-done o k a m h = ap (λ x. and_then x k) h

module _ {B : Type 0} where
  pub raise_exception-never :
      (e : Exception) (v : ℕ) (m : Machine) (b : B) (m' : Machine)
      → raise_exception e v m ≢ done b m'
  unfolding raise_exception
  raise_exception-never e v m b m' =
      and_then-never (set_reg bad_vaddr_reg v m) _ b m'
        (λ _ m1. and_then-never (delayed_load 0 0 m1) _ b m' (λ _ m2 q. cc))

-- the value of register `r`
abbrev pub value : Machine → ℕ → ℕ
value m r = get_or m.registers r 0

pub reg_lem : (r : ℕ) (m : Machine) → r < length m.registers → reg r m ≡ done (value m r) m
unfolding reg
reg_lem r m h = rw (get_elem?-get_or m.registers r 0 h, reg) refl

pub set_reg_lem :
    (r v : ℕ) (m : Machine)
    → r < length m.registers
    → set_reg r v m ≡ done tt (record m { registers = set m.registers r v })
unfolding set_reg
set_reg_lem r v m h = rw (lt→ltb r _ h, set_reg) refl
