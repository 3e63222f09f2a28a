-- ===== src/Userprog/Pcb.antt =====
-- userprog/PCB.h and PCB.cc: the control block of a process and its table of open files. A thread and
-- a UserOpenFile are their addresses; the array of files starts with whatever the memory held. `none`
-- is a failed ASSERT or an access outside the array.
pub mod Files
mod Tests
use cs270hw.Base.{
  ℕ, zero, suc, Bool, true, false, Option, none, some, ◌>>=◌, List, get_elem?, store, ◌==◌,
  if◌then◌else◌,
}
use cs270hw.Base.Int.{ℤ, pos, negsuc, minus_one, ltb_ℤ}
use cs270hw.BitMap.{BitMap, new, test, find, clear}

-- `MAX_USER_FILES`
abbrev pub max_user_files : ℕ
max_user_files = 32

pub record Pcb : Type 0 where
  pub pid : ℤ
  pub parent_pid : ℤ
  pub thread : ℕ
  pub status : ℤ
  pub files : BitMap
  pub open_files : List ℕ

-- `PCB::PCB`; the bitmap and the array start with what the memory holds
abbrev pub new_pcb : (ℕ → List ℕ) → List ℕ → ℤ → ℤ → ℕ → ℤ → Option Pcb
new_pcb fresh blank pid parent_pid thread status = do
  files ← new fresh max_user_files
  some (record {
    pid = pid;
    parent_pid = parent_pid;
    thread = thread;
    status = status;
    files = files;
    open_files = blank;
  })

-- `PCB::SetParentPID`, `PCB::SetThread` and `PCB::SetStatus`
abbrev pub set_parent_pid : ℤ → Pcb → Pcb
set_parent_pid pid p = record p { parent_pid = pid }

abbrev pub set_thread : ℕ → Pcb → Pcb
set_thread thread p = record p { thread = thread }

abbrev pub set_status : ℤ → Pcb → Pcb
set_status status p = record p { status = status }

-- `openFiles[index] = file`
abbrev pub put_file : Pcb → ℤ → ℕ → Option Pcb
put_file p (negsuc n) file = none
put_file p (pos i) file = do fs ← store p.open_files i file; some (record p { open_files = fs })

-- `PCB::AddFile`
pub add_file : ℕ → Pcb → Option Pcb
add_file file p = do
  (index, bits) ← find p.files
  let added = put_file (record p { files = bits }) index file
  if ltb_ℤ minus_one index then added else some (record p { files = bits })

-- `openFiles[index]`
abbrev pub file_at : Pcb → ℤ → Option ℕ
file_at p (negsuc n) = none
file_at p (pos i) = get_elem? p.open_files i

-- `PCB::GetFile`; `none` in the result is NULL
pub get_file : ℤ → Pcb → Option (Option ℕ)
get_file index p = do
  b ← test p.files index
  let found = file_at p index
  if b then (do f ← found; some (some f)) else some none

-- `files->Test(i) && openFiles[i] == file`
abbrev pub is_file : ℕ → ℕ → Pcb → Option Bool
is_file file i p = do
  b ← test p.files (pos i)
  let found = file_at p (pos i)
  if b then (do f ← found; some (f == file)) else some false

-- the loop of CloseFile: whether it found the file, for which it calls the file manager's Close
pub close_loop : ℕ → ℕ → ℕ → Pcb → Option (Bool × Pcb)
close_loop zero i file p = some (false, p)
close_loop (suc n) i file p = do
  b ← is_file file i p
  let others = close_loop n (suc i) file p
  let closed = clear p.files (pos i)
  if b then (do bits ← closed; some (true, record p { files = bits })) else others

-- `PCB::CloseFile`
abbrev pub close_file : ℕ → Pcb → Option (Bool × Pcb)
close_file = close_loop max_user_files 0
