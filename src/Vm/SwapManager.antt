-- ===== src/Vm/SwapManager.antt =====
-- vm/SwapManager.h and SwapManager.cc: the pages of the processes in the swap file. A pointer to a
-- TranslationEntry is a number that `table` looks up; a process id is an `int`. The swap file is an
-- open file, of which two operations are called; OnHost has the one of vm/Makefile. The arrays start with whatever the
-- memory held. `none` is a failed ASSERT or an access through a pointer to nothing.
pub mod Slots
pub mod Search
pub mod Adding
pub mod RoundTrip
pub mod Removing
pub mod Writing
pub mod OnHost
mod Tests
use cs270hw.Base.{
  ℕ, zero, suc, ◌*◌, Bool, true, false, ◌&&◌, Option, none, some, ◌>>=◌, List, get_elem?, store,
  ◌==◌, if◌then◌else◌,
}
use cs270hw.Base.Int.{ℤ, pos, negsuc, minus_one, pos_part, neg_part}
use cs270hw.BitMap.{BitMap, test, find, clear, num_clear}
use cs270hw.Machine.{Entry}
use cs270hw.Machine.Translate.{page_size}

-- `SWAPSIZE`
abbrev pub swap_size : ℕ
swap_size = 256

-- `swap->WriteAt(buffer, size, position)` and `swap->ReadAt(buffer, size, position)`
pub record SwapFile (F : Type 0) : Type 0 where
  pub write_at : F → List ℕ → ℕ → ℕ → ℕ × F
  pub read_at : F → ℕ → ℕ → List ℕ

pub record SwapManager (F : Type 0) : Type 0 where
  pub swap : F
  pub bitmap : BitMap
  pub entries : List ℕ
  pub pids : List ℤ

-- `a == b` of two `int`s
abbrev pub same_int : ℤ → ℤ → Bool
same_int a b = pos_part a == pos_part b && neg_part a == neg_part b

-- What addPage comes to: it returns a value, it ends without `return`, or the process exits.
pub data Added : Type 0 where
  returns : Bool → Added
  no_value exits : Added

module _ {F : Type 0} (table : ℕ → Option Entry) where
  -- `entries[i]->virtualPage == vpn`
  abbrev pub is_page : SwapManager F → ℕ → ℕ → Option Bool
  is_page m vpn i = do p ← get_elem? m.entries i; e ← table p; some (e.virtual_page == vpn)

  -- `(PIDs[i] == pid) && bitmap->Test(i) && (entries[i]->virtualPage == vpn)`
  pub is_at : SwapManager F → ℤ → ℕ → ℕ → Option Bool
  is_at m pid vpn i = do
    owner ← get_elem? m.pids i
    let used = test m.bitmap (pos i)
    b ← if same_int owner pid then used else some false
    let page = is_page m vpn i
    if b then page else some false

  -- the loops of addPage and findPage, up to the page
  pub search : ℕ → ℕ → SwapManager F → ℤ → ℕ → Option (Option ℕ)
  search zero i m pid vpn = some none
  search (suc n) i m pid vpn = do
    b ← is_at m pid vpn i
    let others = search n (suc i) m pid vpn
    if b then some (some i) else others

  -- the test of `writePage`, which looks at the entry before the bit
  pub is_at_unchecked : SwapManager F → ℤ → ℕ → ℕ → Option Bool
  is_at_unchecked m pid vpn i = do
    owner ← get_elem? m.pids i
    let page = is_page m vpn i
    b ← if same_int owner pid then page else some false
    let used = test m.bitmap (pos i)
    if b then used else some false

module _ {F : Type 0} (file : SwapFile F) (table : ℕ → Option Entry) where
  -- `swap->WriteAt(buffer, size, PageSize*i)`: whether it wrote a page
  abbrev pub write_slot : SwapManager F → List ℕ → ℕ → ℕ → Bool × SwapManager F
  write_slot m buffer size i =
      let r = file.write_at m.swap buffer size (page_size * i) in
      (r.0 == page_size, record m { swap = r.1 })

  -- `entries[free] = page; PIDs[free] = pid;`
  abbrev pub own_slot : SwapManager F → ℕ → ℤ → ℤ → Option (SwapManager F)
  own_slot m page pid (negsuc n) = none
  own_slot m page pid (pos free) = do
    entries ← store m.entries free page
    pids ← store m.pids free pid
    some (record m { entries = entries; pids = pids })

  -- the end of `addPage`, behind `entries[free] = page; PIDs[free] = pid;`
  abbrev pub write_new : SwapManager F → List ℕ → ℕ → ℤ → Added × SwapManager F
  write_new m buffer size free =
      let (whole, m1) = write_slot m buffer size (pos_part free) in
      (if whole then no_value else returns false, m1)

  -- `addPage` for a page that is not in the swap file
  pub add_new : SwapManager F → ℕ → ℤ → List ℕ → ℕ → Option (Added × SwapManager F)
  add_new m page pid buffer size = do
    (free, bits) ← find m.bitmap
    let m1 = record m { bitmap = bits }
    let owned = own_slot m1 page pid free
    if same_int free minus_one
        then some (exits, m1)
        else do m2 ← owned; some (write_new m2 buffer size free)

  -- `addPage` for the slot that its loop found
  abbrev pub add_found :
      SwapManager F → ℕ → ℤ → List ℕ → ℕ → Option ℕ → Option (Added × SwapManager F)
  add_found m page pid buffer size (some i) =
      let (whole, m1) = write_slot m buffer size i in some (returns whole, m1)
  add_found m page pid buffer size none = add_new m page pid buffer size

  -- `SwapManager::addPage`
  pub add_page : SwapManager F → ℕ → ℤ → List ℕ → ℕ → Option (Added × SwapManager F)
  add_page m page pid buffer size = do
    e ← table page
    found ← search table swap_size 0 m pid e.virtual_page
    add_found m page pid buffer size found

  -- `findPage` for the slot that its loop found: the entry, and what is in the buffer
  abbrev pub read_found : SwapManager F → Option ℕ → Option (Option (ℕ × List ℕ))
  read_found m none = some none
  read_found m (some i) = do
    p ← get_elem? m.entries i
    some (some (p, file.read_at m.swap page_size (page_size * i)))

  -- `SwapManager::findPage`
  pub find_page : SwapManager F → ℤ → ℕ → Option (Option (ℕ × List ℕ))
  find_page m pid vpn = do found ← search table swap_size 0 m pid vpn; read_found m found

  -- the loop of `writePage`, with the ASSERT at its end
  pub write_loop : ℕ → ℕ → SwapManager F → ℤ → ℕ → List ℕ → Option (SwapManager F)
  write_loop zero i m pid vpn buffer = none
  write_loop (suc n) i m pid vpn buffer = do
    b ← is_at_unchecked table m pid vpn i
    let (whole, m1) = write_slot m buffer page_size i
    let others = write_loop n (suc i) m pid vpn buffer
    let written = if whole then some m1 else none
    if b then written else others

  -- `SwapManager::writePage`
  abbrev pub write_page : SwapManager F → ℤ → ℕ → List ℕ → Option (SwapManager F)
  write_page = write_loop swap_size 0

-- `PIDs[i] = -1; if (bitmap->Test(i)) bitmap->Clear(i);`
pub remove_slot : {F : Type 0} → ℕ → SwapManager F → Option (SwapManager F)
remove_slot i m = do
  pids ← store m.pids i minus_one
  used ← test m.bitmap (pos i)
  let cleared = clear m.bitmap (pos i)
  bits ← if used then cleared else some m.bitmap
  some (record m { pids = pids; bitmap = bits })

-- the loop of `removePages`
pub remove_loop : {F : Type 0} → ℕ → ℕ → ℤ → SwapManager F → Option (SwapManager F)
remove_loop zero i pid m = some m
remove_loop (suc n) i pid m = do
  owner ← get_elem? m.pids i
  let removed = remove_slot i m
  m1 ← if same_int owner pid then removed else some m
  remove_loop n (suc i) pid m1

-- `SwapManager::removePages`
abbrev pub remove_pages : {F : Type 0} → ℤ → SwapManager F → Option (SwapManager F)
remove_pages = remove_loop swap_size 0
