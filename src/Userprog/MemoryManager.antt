-- ===== src/Userprog/MemoryManager.antt =====
-- userprog/MemoryManager.h and MemoryManager.cc: the frames of physical memory, behind a lock. A call
-- is made by the thread `me`; it runs from its Acquire on, to its end or to the sleep of the thread.
pub mod Pages
mod Tests
use cs270hw.Base.{ℕ, Bool, true, false, ◌||◌, Option, none, some, List, ltb, if◌then◌else◌}
use cs270hw.Base.Int.{ℤ, pos, negsuc}
use cs270hw.BitMap.{BitMap, new, clear, find, num_clear}
use cs270hw.Machine.Translate.{num_phys_pages}
use cs270hw.Threads.Lock.{LockState, new_lock, acquire, release}

pub record MemoryManager : Type 0 where
  pub bit_mem : BitMap
  pub mem_size : ℕ
  pub mem_lock : LockState

-- `MemoryManager::MemoryManager`
abbrev pub new_manager : (fresh : ℕ → List ℕ) → ℕ → Option MemoryManager
new_manager fresh noise = elim (new fresh num_phys_pages) [
  | none ↦ none
  | some b ↦ some (record { bit_mem = b; mem_size = num_phys_pages; mem_lock = new_lock noise })
]

-- What a call comes to: a result, with the thread that it made ready; the sleep of the caller; or a
-- failed ASSERT.
pub data Call (A : Type 0) : Type 0 where
  finished : A → Option ℕ → MemoryManager → Call A
  asleep : MemoryManager → Call A
  failed : Call A

-- `mem_lock->Acquire()`, and the rest of the call
abbrev pub locked : {A : Type 0} → ℕ → (MemoryManager → Call A) → MemoryManager → Call A
locked me body mm =
    let (got, l) = acquire me mm.mem_lock in
    let after = body (record mm { mem_lock = l }) in
    if got then after else asleep (record mm { mem_lock = l })

-- `mem_lock->Release(); return a;`
abbrev pub unlocked : {A : Type 0} → ℕ → A → MemoryManager → Call A
unlocked me a mm =
    let (woken, l) = release me mm.mem_lock in finished a woken (record mm { mem_lock = l })

-- `MemoryManager::getPage`, behind Acquire and whole
pub take_page : ℕ → MemoryManager → Call ℤ
take_page me mm = elim (find mm.bit_mem) [
  | none ↦ failed
  | some (page, b) ↦ unlocked me page (record mm { bit_mem = b })
]

pub get_page : ℕ → MemoryManager → Call ℤ
get_page me = locked me (take_page me)

-- `(i > mem_size)||(i < 0)`
abbrev pub no_page : ℤ → ℕ → Bool
no_page (negsuc n) size = true
no_page (pos n) size = ltb size n

-- `MemoryManager::clearPage`, behind Acquire and whole
pub give_page : ℕ → ℤ → MemoryManager → Call (Unit {0})
give_page me i mm =
    if no_page i mm.mem_size then finished tt none mm else elim (clear mm.bit_mem i) [
      | none ↦ failed
      | some b ↦ unlocked me tt (record mm { bit_mem = b })
    ]

pub clear_page : ℕ → ℤ → MemoryManager → Call (Unit {0})
clear_page me i = locked me (give_page me i)

-- `MemoryManager::freePages`, behind Acquire and whole
pub count_pages : ℕ → MemoryManager → Call ℕ
count_pages me mm = elim (num_clear mm.bit_mem) [ none ↦ failed | some n ↦ unlocked me n mm ]

pub free_pages : ℕ → MemoryManager → Call ℕ
free_pages me = locked me (count_pages me)
