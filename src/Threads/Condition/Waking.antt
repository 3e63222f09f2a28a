-- ===== src/Threads/Condition/Waking.antt =====
-- Whom the calls of a condition variable wake.
use cs270hw.Base.{ℕ, List, [], ◌∷◌, length}
use cs270hw.Threads.Condition.{CondState}

-- the condition that is a queue of threads, with the right counter
abbrev pub waiting : List ℕ → CondState
waiting queue = record { waiting_threads = length queue; queue = queue }

-- the threads in the order in which they are made ready, the last one first
abbrev pub backwards : List ℕ → List ℕ → List ℕ
backwards [] done = done
backwards (t ∷ ts) done = backwards ts (t ∷ done)
