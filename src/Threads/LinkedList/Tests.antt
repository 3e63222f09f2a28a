-- ===== src/Threads/LinkedList/Tests.antt =====
-- A list of two elements on the heap, at the places 7 and 3.
use cs270hw.Base.{ℕ, ◌≡◌, refl, none, some, List, [], ◌∷◌, arith, ◌==◌, if◌then◌else◌}
use cs270hw.Threads.LinkedList.{Heap, Handle, sorted_insert, sorted_remove, append, prepend}
use cs270hw.Threads.LinkedList.Queue.{enqueue, Entry, IsSorted, enqueue-IsSorted}
use cs270hw.Threads.LinkedList.Refine.{Holds, sorted_insert-Holds}
use cs270hw.Threads.LinkedList.Ends.{sorted_remove-Holds, append-prepend-Holds}

abbrev two_heap : Heap
two_heap q =
    if q == 7
    then some (record { next = 3; key = 10; item = 1 })
    else if q == 3
    then some (record { next = 0; key = 20; item = 2 })
    else none

abbrev two_list : Handle
two_list = record { first = 7; last = 3 }

abbrev two_entries : List (Entry ℕ)
two_entries = (10, 1) ∷ (20, 2) ∷ []

two-Holds : Holds two_heap two_list two_entries
two-Holds = (
  record { ptr = 7; key = 10; item = 1 } ∷ record { ptr = 3; key = 20; item = 2 } ∷ [],
  refl,
  (refl, refl, (refl, refl, tt)),
  (refl, (refl, tt)),
  refl,
)

sorted_insert-Holds_example :
    (l' : Handle) × (h' : Heap) × (sorted_insert 2 two_heap two_list 5 9 20 ≡ some (l', h'))
    × Holds h' l' ((10, 1) ∷ (20, 2) ∷ (20, 9) ∷ [])
sorted_insert-Holds_example =
    sorted_insert-Holds 2 two_heap two_list two_entries 5 9 20 two-Holds refl refl (omega arith)

sorted_remove-Holds_example :
    (l' : Handle) × (h' : Heap) × (sorted_remove two_heap two_list ≡ some (some (1, 10), l', h'))
    × Holds h' l' ((20, 2) ∷ [])
sorted_remove-Holds_example = sorted_remove-Holds two_heap two_list two_entries two-Holds

append-prepend-Holds_example :
    ((l' : Handle) × (h' : Heap) × (append two_heap two_list 5 9 ≡ some (l', h'))
      × Holds h' l' ((10, 1) ∷ (20, 2) ∷ (0, 9) ∷ []))
    × ((l' : Handle) × (h' : Heap) × (prepend two_heap two_list 5 9 ≡ some (l', h'))
        × Holds h' l' ((0, 9) ∷ (10, 1) ∷ (20, 2) ∷ []))
append-prepend-Holds_example =
    append-prepend-Holds two_heap two_list two_entries 5 9 two-Holds refl refl

enqueue-IsSorted_example : IsSorted (enqueue (20, 9) two_entries)
enqueue-IsSorted_example = enqueue-IsSorted (20, 9) two_entries (omega arith)
