-- ===== src/Filesys/SysOpenFile.antt =====
-- filesys/SysOpenFile.h and SysOpenFile.cc: the kernel's table of open files, behind a lock. The slots
-- hold the addresses of SysOpenFile objects on a heap, where NULL is 0; a name is its characters before
-- the terminating 0. A call of the thread `me` runs from its Acquire on.
pub mod Table
mod Tests
use cs270hw.Base.{
  ℕ, zero, suc, ◌+◌, Bool, true, false, ◌&&◌, Option, none, some, ◌>>=◌, List, [], ◌∷◌, get_elem?,
  store, ◌==◌, if◌then◌else◌, ltb, leb,
}
use cs270hw.Base.Int.{ℤ, pos, negsuc, minus_one, ◌+ℤ◌}
use cs270hw.BitMap.{BitMap, new, test, find, clear}
use cs270hw.Threads.Lock.{LockState, new_lock, acquire, release}

-- `SOFILETABLE_SIZE`
abbrev pub table_size : ℕ
table_size = 128

pub record SysOpenFile : Type 0 where
  pub file : ℕ
  pub file_id : ℤ
  pub file_name : List ℕ
  pub user_opens : ℤ

-- `SysOpenFile::SysOpenFile`
abbrev pub new_sys_file : List ℕ → ℕ → ℤ → SysOpenFile
new_sys_file name file id = record {
  file = file;
  file_id = id;
  file_name = name;
  user_opens = pos 1;
}

-- the manager, and the objects on the heap
pub record SysFiles : Type 0 where
  pub table : List ℕ
  pub bit_map : BitMap
  pub fm_lock : LockState
  pub objects : ℕ → Option SysOpenFile

-- `SysOpenFileManager::SysOpenFileManager`; the table starts with what the memory holds
abbrev pub new_sys_files : (ℕ → List ℕ) → List ℕ → ℕ → (ℕ → Option SysOpenFile) → Option SysFiles
new_sys_files fresh blank noise objects = do
  b ← new fresh table_size
  some (record { table = blank; bit_map = b; fm_lock = new_lock noise; objects = objects })

-- What a call comes to, `none` being a failed ASSERT or a bad access: the sleep of the caller for the
-- lock, or a result with the thread made ready.
pub data Reply (A : Type 0) : Type 0 where
  replied : A → Option ℕ → Reply A
  asleep : Reply A

-- `fm_lock->Acquire()`, the rest of the call, and `fm_lock->Release()`
abbrev pub guarded :
    {A : Type 0} → ℕ → (SysFiles → Option (A × SysFiles)) → SysFiles → Option (Reply A × SysFiles)
guarded me body s = do
  let (got, l) = acquire me s.fm_lock
  let after = (do
    (a, s1) ← body (record s { fm_lock = l })
    let (woken, l1) = release me s1.fm_lock
    some (replied a woken, record s1 { fm_lock = l1 }))
  if got then after else some (asleep, record s { fm_lock = l })

-- `objects` with another object at an address
abbrev pub put_object : ℕ → Option SysOpenFile → SysFiles → SysFiles
put_object p object s = record s { objects = λ q. if q == p then object else s.objects q }

-- `sysOpenFileTable[index] = file; file->FileID = index + 2`
abbrev pub enter : ℕ → ℕ → SysFiles → Option SysFiles
enter index file s = do
  t ← store s.table index file
  object ← s.objects file
  some (
      put_object file (some (record object { file_id = pos (index + 2) })) (record s { table = t }))

-- `SysOpenFileManager::Add` behind Acquire, and whole
pub added : ℕ → SysFiles → Option (ℤ × SysFiles)
added file s = do
  (index, b) ← find s.bit_map
  elim index [
    | negsuc n ↦ some (minus_one, record s { bit_map = b })
    | pos k ↦ (do s1 ← enter k file (record s { bit_map = b }); some (pos k, s1))
  ]

pub add : ℕ → ℕ → SysFiles → Option (Reply ℤ × SysFiles)
add me file = guarded me (added file)

-- `strcmp(a, b) == 0`
abbrev pub same_name : List ℕ → List ℕ → Bool
same_name [] [] = true
same_name [] (y ∷ ys) = false
same_name (x ∷ xs) [] = false
same_name (x ∷ xs) (y ∷ ys) = x == y && same_name xs ys

-- `strcmp(sysOpenFileTable[i]->fileName, fileName) == 0`
abbrev pub is_named : List ℕ → ℕ → SysFiles → Option Bool
is_named name i s = do
  p ← get_elem? s.table i
  object ← s.objects p
  some (same_name object.file_name name)

-- the loop of `Get(char*, int&)`, with `n` rounds left: the index, `none` where it ends without one
pub name_loop : ℕ → ℕ → List ℕ → SysFiles → Option (Option ℕ)
name_loop zero i name s = some none
name_loop (suc n) i name s = do
  let others = name_loop n (suc i) name s
  let named = is_named name i s
  used ← test s.bit_map (pos i)
  if used then (do y ← named; if y then some (some i) else others) else some none

-- `SysOpenFileManager::Get(char*, int&)`: the object and the index
abbrev pub get_by_name : ℕ → List ℕ → SysFiles → Option (Reply (Option (ℕ × ℕ)) × SysFiles)
get_by_name me name = guarded me (λ s. do
  i ← name_loop table_size 0 name s
  elim i [ none ↦ some (none, s) | some k ↦ (do p ← get_elem? s.table k; some (some (p, k), s)) ])

-- an `int` index that the test against the size of the table lets pass
abbrev pub past_table : ℤ → Bool
past_table (negsuc n) = false
past_table (pos k) = leb table_size k

-- `sysOpenFileTable[index]`
abbrev pub entry : ℤ → SysFiles → Option ℕ
entry (negsuc n) s = none
entry (pos k) s = get_elem? s.table k

-- `SysOpenFileManager::Get(int)` behind Acquire, and whole; `none` in the result is NULL
pub got : ℤ → SysFiles → Option (Option ℕ × SysFiles)
got index s = do
  let there = (do p ← entry index s; some (some p, s))
  let tested = (do used ← test s.bit_map index; if used then there else some (none, s))
  if past_table index then some (none, s) else tested

pub get : ℕ → ℤ → SysFiles → Option (Reply (Option ℕ) × SysFiles)
get me index = guarded me (got index)

abbrev pub is_zero : ℤ → Bool
is_zero (pos zero) = true
is_zero (pos (suc n)) = false
is_zero (negsuc n) = false

-- the last close of a file: delete the object, set the slot to NULL and clear the bit
abbrev pub drop_file : ℤ → ℕ → SysFiles → Option SysFiles
drop_file (negsuc n) p s = none
drop_file (pos k) p s = do
  t ← store s.table k 0
  b ← clear s.bit_map (pos k)
  some (put_object p none (record s { table = t; bit_map = b }))

-- `SysOpenFileManager::Close` behind Acquire, and whole
pub closed : ℤ → SysFiles → Option (Unit {0} × SysFiles)
closed index s = do
  let count = (do
    p ← entry index s
    object ← s.objects p
    let opens = object.user_opens +ℤ minus_one
    let s1 = put_object p (some (record object { user_opens = opens })) s
    let dropped = drop_file index p s1
    if is_zero opens then dropped else some s1)
  let tested = (do used ← test s.bit_map index; s2 ← if used then count else some s; some (tt, s2))
  if past_table index then some (tt, s) else tested

pub close : ℕ → ℤ → SysFiles → Option (Reply (Unit {0}) × SysFiles)
close me index = guarded me (closed index)
