-- ===== src/Threads/Condition/Tests.antt =====
-- Threads 4 and 5 wait, and thread 2, which holds the lock, calls.
use cs270hw.Base.{true, []}
use cs270hw.Threads.Lock.{LockState}

abbrev held_by_2 : LockState
held_by_2 = record { lock_taken = true; current_th = 2; queue = [] }
