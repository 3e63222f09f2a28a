-- ===== src/Userprog/MemoryManager/Pages.antt =====
-- Pages given out and taken back.
use cs270hw.Base.{
  ℕ, ◌<◌, ◌≡◌, ◌∙◌, ap, refl, Bool-cases, inl, inr, true, false, none, some, [], ◌∷◌, ◌==◌, ==_iff,
  arith,
}
use cs270hw.Base.Int.{ℤ, pos}
use cs270hw.BitMap.{BitMap, find, clear}
use cs270hw.BitMap.Bits.{IsValid, is_set, clear_lem}
use cs270hw.BitMap.Laws.{find_lem}
use cs270hw.BitMap.Count.{free_bits, Found-free_bits, num_clear_lem}
use cs270hw.Threads.Lock.{LockState, acquire, release}
use cs270hw.Userprog.MemoryManager.{
  MemoryManager, Call, finished, asleep, get_page, take_page, give_page, clear_page, count_pages,
  free_pages, no_page, locked, unlocked,
}

-- a lock that `me` took and gave back last, and one that `me` has; no thread waits
abbrev pub rested : ℕ → LockState
rested me = record { lock_taken = false; current_th = me; queue = [] }

abbrev pub taken : ℕ → LockState
taken me = record { lock_taken = true; current_th = me; queue = [] }

-- a manager with its lock in that state
abbrev pub manager : BitMap → ℕ → LockState → MemoryManager
manager b size l = record { bit_mem = b; mem_size = size; mem_lock = l }

pub acquired : (me last : ℕ) → acquire me (rested last) ≡ (true, taken me)
acquired me last = elim (Bool-cases (last == me)) [ inl y ↦ rw y refl | inr n ↦ rw n refl ]

pub released : (me : ℕ) → release me (taken me) ≡ (none, rested me)
released me = let y : (me == me) ≡ true = (==_iff me me).1 refl in rw y refl

module _ {A : Type 0} where
  locked_lem :
      (me last : ℕ) (body : MemoryManager → Call A) (b : BitMap) (size : ℕ)
      → locked me body (manager b size (rested last)) ≡ body (manager b size (taken me))
  locked_lem me last body b size = rw (acquired me last) refl

  unlocked_lem :
      (me : ℕ) (a : A) (b : BitMap) (size : ℕ)
      → unlocked me a (manager b size (taken me)) ≡ finished a none (manager b size (rested me))
  unlocked_lem me a b size = rw (released me) refl

get_page-find :
    (me last : ℕ) (b b' : BitMap) (size : ℕ) (r : ℤ)
    → find b ≡ some (r, b')
    → get_page me (manager b size (rested last)) ≡ finished r none (manager b' size (rested me))
unfolding get_page take_page
get_page-find me last b b' size r h =
    locked_lem me last (take_page me) b size ∙ rw (h, take_page) (unlocked_lem me r b' size)

clear_page-clear :
    (me last : ℕ) (b b' : BitMap) (size n : ℕ)
    → n < size
    → clear b (pos n) ≡ some b'
    → clear_page me (pos n) (manager b size (rested last))
      ≡ finished tt none (manager b' size (rested me))
unfolding clear_page give_page
clear_page-clear me last b b' size n small h =
    let there : no_page (pos n) size ≡ false = ground arith in
    locked_lem me last (give_page me (pos n)) b size
    ∙ rw (there, h, give_page) (unlocked_lem me tt b' size)

-- On a valid map with a free frame, while no thread has the lock or waits for it: getPage gives a
-- frame that was free and marks it, and clearPage of that frame, by any thread, leaves every frame
-- free or used as it was before; both give the lock back.
pub clear_page-get_page :
    (me you last : ℕ) (b : BitMap)
    → IsValid b
    → 0 < free_bits b
    → (page : ℕ) × (b' : BitMap) × (b'' : BitMap) × (get_page me
          (manager b b.num_bits (rested last))
        ≡ finished (pos page) none (manager b' b.num_bits (rested me)))
      × (is_set b page ≡ false)
      × (is_set b' page ≡ true)
      × (clear_page you (pos page) (manager b' b.num_bits (rested me))
          ≡ finished tt none (manager b'' b.num_bits (rested you)))
      × ((j : ℕ) → is_set b'' j ≡ is_set b j)
clear_page-get_page me you last b v some_free =
    let (r, e, f) = find_lem b v in
    elim (Found-free_bits b f) [
      | inl full ↦ absurd (omega (arith, full))
      | inr (k, er, hk, ck, ch, cnt) ↦
          let (b'', ec, cl) = clear_lem r.1 k ch.valid (omega (arith, ch.size)) in
          let found : find b ≡ some (pos k, r.1) = e ∙ ap (λ x. some (x, r.1)) er in
          (
            k,
            r.1,
            b'',
            get_page-find me last b r.1 b.num_bits (pos k) found,
            ck,
            ground (arith, ch.bits k),
            clear_page-clear you me r.1 b'' b.num_bits k hk ec,
            λ j. ground (arith, cl.bits j, ch.bits j, ck),
          )
    ]

-- While no thread has the lock or waits for it, clearPage of a number below 0 or above `mem_size`
-- returns with the lock still taken, and then getPage by every other thread sleeps.
pub clear_page_keeps_lock :
    (me you last : ℕ) (b : BitMap) (size : ℕ) (i : ℤ)
    → no_page i size ≡ true
    → (me == you) ≡ false
    → (clear_page me i (manager b size (rested last))
        ≡ finished tt none (manager b size (taken me)))
      × (get_page you (manager b size (taken me))
          ≡ asleep (manager b size (record (taken me) { queue = you ∷ [] })))
unfolding clear_page give_page get_page
clear_page_keeps_lock me you last b size i out other =
    (locked_lem me last (give_page me i) b size ∙ rw out refl, rw other refl)

-- On a valid map, while no thread has the lock or waits for it, freePages gives the number of free
-- frames and gives the lock back.
pub free_pages_lem :
    (me last : ℕ) (b : BitMap) (size : ℕ)
    → IsValid b
    → free_pages me (manager b size (rested last))
      ≡ finished (free_bits b) none (manager b size (rested me))
unfolding free_pages count_pages
free_pages_lem me last b size v =
    locked_lem me last (count_pages me) b size
    ∙ rw (num_clear_lem b v, count_pages) (unlocked_lem me (free_bits b) b size)
