-- ===== src/Machine/Interrupt/Level.antt =====
-- SetLevel as the kernel uses it, `old = SetLevel(IntOff); ...; SetLevel(old);`.
use cs270hw.Base.{
  ℕ, ◌≡◌, refl, Bool, true, false, not, Option, some, none, ◌>>=◌, ◌>>◌, assert, if◌then◌else◌,
}
use cs270hw.Machine.Interrupt.{
  Interrupt, IntStatus, int_off, int_on, Kernel, is_off, change_level, set_level, one_tick, enable,
}

-- interrupts disabled, and set as they were before
abbrev pub disable_and_restore : {W : Type 0} → Kernel W → ℕ → Interrupt W → Option (Interrupt W)
disable_and_restore k fuel s = do
  (old, s1) ← set_level k fuel int_off s
  (_, s2) ← set_level k fuel old s1
  some s2

-- what SetLevel returns, and the state behind it
abbrev with_level :
    {W : Type 0} → IntStatus → Option (Interrupt W) → Option (IntStatus × Interrupt W)
with_level old m = do s1 ← m; some (old, s1)

abbrev state_of : {W : Type 0} → Option (IntStatus × Interrupt W) → Option (Interrupt W)
state_of m = do (_, s1) ← m; some s1

module _ {W : Type 0} where
  state_of-with_level :
      (old : IntStatus) (m : Option (Interrupt W)) → state_of (with_level old m) ≡ m
  state_of-with_level old none = refl
  state_of-with_level old (some s1) = refl

module _ {W : Type 0} (k : Kernel W) where
  -- the assertion of SetLevel, and OneTick behind it
  checked_tick :
      (fuel : ℕ) (s : Interrupt W) (inside : Bool) (old : IntStatus)
      → state_of (assert (not inside) >> with_level old (one_tick k fuel s))
        ≡ (if inside then none else one_tick k fuel s)
  checked_tick fuel s true old = refl
  checked_tick fuel s false old = state_of-with_level old (one_tick k fuel s)

  restores_lem :
      (fuel : ℕ) (level : IntStatus) (s : Interrupt W)
      → disable_and_restore k fuel (change_level level s) ≡ (
          if is_off level
          then some (change_level level s)
          else if s.in_handler
          then none
          else one_tick k fuel (change_level level s))
  unfolding set_level
  restores_lem fuel int_off s = refl
  restores_lem fuel int_on s = checked_tick fuel (change_level int_on s) s.in_handler int_off

  -- To disable interrupts and restore the level leaves the state as it is where they were disabled
  -- before; where they were enabled, it is a failed ASSERT in a handler and OneTick elsewhere. Enable
  -- does the same to disabled interrupts as restoring them does.
  pub set_level-restores :
      (fuel : ℕ) (s : Interrupt W)
      → (disable_and_restore k fuel s
          ≡ (if is_off s.level then some s else if s.in_handler then none else one_tick k fuel s))
        × (enable k fuel (change_level int_off s)
            ≡ (if s.in_handler then none else one_tick k fuel (change_level int_on s)))
  unfolding set_level enable
  set_level-restores fuel s =
      (restores_lem fuel s.level s, checked_tick fuel (change_level int_on s) s.in_handler int_off)
