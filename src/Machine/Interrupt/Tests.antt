-- ===== src/Machine/Interrupt/Tests.antt =====
-- A machine whose only handler is the timer's, with two interrupts pending.
use cs270hw.Base.{◌≡◌, refl, ◌⊎◌, true, false, some, none, [], ◌∷◌, arith}
use cs270hw.Threads.LinkedList.Queue.{IsSorted}
use cs270hw.Machine.Interrupt.{
  Interrupt, Kernel, PendingInterrupt, timer_int, disk_int, system_mode, int_off, int_on,
  change_level, one_tick, yield_if_asked, idle, enable,
}
use cs270hw.Machine.Interrupt.Timer.{timer_expired, timer_expired-Calls}
use cs270hw.Machine.Interrupt.Due.{due_count}
use cs270hw.Machine.Interrupt.Loop.{IsHandled, IsReady}
use cs270hw.Machine.Interrupt.Clock.{one_tick-Settled}
use cs270hw.Machine.Interrupt.Rest.{only_timer, next_due, idle-advances_or_halts}
use cs270hw.Machine.Interrupt.Level.{disable_and_restore, set_level-restores}

abbrev Nothing : Type 0
Nothing = Unit {0}

abbrev timer_kernel : Kernel Nothing
timer_kernel = record {
  delayed_load = λ w. w;
  call = λ handler arg s. timer_expired 1 arg false 0 s;
  yield = λ s. some s;
}

timer_kernel-IsHandled : IsHandled timer_kernel
timer_kernel-IsHandled handler arg s off inside clock =
    timer_expired-Calls 1 arg false 0 s inside clock

abbrev timer_event : PendingInterrupt
timer_event = record { handler = 1; arg = 0; due = 100; type = timer_int }

abbrev disk_event : PendingInterrupt
disk_event = record { handler = 1; arg = 7; due = 500; type = disk_int }

abbrev waiting : Interrupt Nothing
waiting = record {
  level = int_off;
  pending = (100, timer_event) ∷ (500, disk_event) ∷ [];
  in_handler = false;
  yield_on_return = false;
  status = system_mode;
  stats = record { total = 95; idle = 0; system = 90; user = 5 };
  world = tt;
}

waiting-IsReady : IsReady waiting
waiting-IsReady = record {
  level = refl;
  no_handler = refl;
  sorted = omega arith;
  clock = omega arith;
}

one_tick-Settled_example :
    (s' : Interrupt Nothing) × (one_tick timer_kernel 3 waiting
      ≡ yield_if_asked timer_kernel system_mode s')
    × (s'.level ≡ int_on)
    × (s'.stats.total ≡ 105)
    × (due_count s'.stats.total s'.pending ≡ 0)
    × IsSorted s'.pending
one_tick-Settled_example =
    one_tick-Settled timer_kernel timer_kernel-IsHandled 3 waiting (omega arith) refl refl
      (omega arith) (omega arith) (omega arith) (omega arith)

idle-advances_or_halts_example :
    (only_timer waiting.pending ≡ true → idle timer_kernel 3 waiting ≡ some none)
    × (only_timer waiting.pending ≡ false
        → (s' : Interrupt Nothing) × (idle timer_kernel 3 waiting ≡ some (some s'))
          × (s'.stats.total ≡ next_due 95 waiting.pending)
          × (s'.status ≡ system_mode)
          × (s'.yield_on_return ≡ false)
          × ((due_count s'.stats.total s'.pending ≡ 0) ⊎ (only_timer s'.pending ≡ true)))
idle-advances_or_halts_example =
    idle-advances_or_halts timer_kernel timer_kernel-IsHandled 3 waiting waiting-IsReady
      (omega arith) (omega arith)

set_level-restores_example :
    (disable_and_restore timer_kernel 3 waiting ≡ some waiting)
    × (enable timer_kernel 3 (change_level int_off waiting)
        ≡ one_tick timer_kernel 3 (change_level int_on waiting))
set_level-restores_example = set_level-restores timer_kernel 3 waiting
