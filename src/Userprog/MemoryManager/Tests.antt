-- ===== src/Userprog/MemoryManager/Tests.antt =====
-- The theorems on the frames at a concrete map.
use cs270hw.Base.{ℕ, ◌≡◌, refl, true, false, none, [], ◌∷◌, arith}
use cs270hw.Base.Int.{pos}
use cs270hw.BitMap.{BitMap}
use cs270hw.BitMap.Bits.{IsValid, is_set}
use cs270hw.Userprog.MemoryManager.{finished, asleep, get_page, clear_page}
use cs270hw.Userprog.MemoryManager.Pages.{
  manager, rested, taken, clear_page-get_page, clear_page_keeps_lock,
}

-- frames 0 and 1 of 4 are used
abbrev frames : BitMap
frames = record { num_bits = 4; num_words = 1; map = 3 ∷ [] }

frames-IsValid : IsValid frames
frames-IsValid = record { room = omega arith }

clear_page-get_page_example :
    (page : ℕ) × (b' : BitMap) × (b'' : BitMap) × (get_page 1 (manager frames 4 (rested 0))
      ≡ finished (pos page) none (manager b' 4 (rested 1)))
    × (is_set frames page ≡ false)
    × (is_set b' page ≡ true)
    × (clear_page 2 (pos page) (manager b' 4 (rested 1))
        ≡ finished tt none (manager b'' 4 (rested 2)))
    × ((j : ℕ) → is_set b'' j ≡ is_set frames j)
unfolding is_set
clear_page-get_page_example = clear_page-get_page 1 2 0 frames frames-IsValid (omega arith)

clear_page_keeps_lock_example :
    (clear_page 1 (pos 5) (manager frames 4 (rested 0))
      ≡ finished tt none (manager frames 4 (taken 1)))
    × (get_page 2 (manager frames 4 (taken 1))
        ≡ asleep (manager frames 4 (record (taken 1) { queue = 2 ∷ [] })))
clear_page_keeps_lock_example = clear_page_keeps_lock 1 2 0 frames 4 (pos 5) refl refl
