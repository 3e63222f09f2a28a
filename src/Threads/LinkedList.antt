-- ===== src/Threads/LinkedList.antt =====
-- threads/list.h and list.cc: a singly linked list on a heap of elements. A pointer is a number, 0 is
-- NULL, and `fresh` is what `new ListElement` gives. A key is an `int` that is not negative, as the
-- callers' times and zeros are. `none` is an access through NULL or a dangling pointer, or the end of
-- the fuel of the one loop whose length the code does not know, the walk of SortedInsert.
pub mod Chain
pub mod Insert
pub mod Queue
pub mod Ends
pub mod Refine
mod Tests
use cs270hw.Base.{
  ℕ, zero, suc, Bool, true, false, Option, none, some, ◌>>=◌, ltb, ◌==◌, if◌then◌else◌,
}

abbrev pub Ptr : Type 0
Ptr = ℕ

-- `ListElement`
pub record Element : Type 0 where
  pub next : Ptr
  pub key : ℕ
  pub item : ℕ

abbrev pub Heap : Type 0
Heap = Ptr → Option Element

-- `List`
pub record Handle : Type 0 where
  pub first : Ptr
  pub last : Ptr

abbrev pub write : Heap → Ptr → Option Element → Heap
write h p e q = if q == p then e else h q

-- `p->next = q`
pub set_next : Heap → Ptr → Ptr → Option Heap
set_next h p q = do e ← h p; some (write h p (some (record e { next = q })))

-- `ListElement::ListElement`, at its place in the heap
abbrev pub new_element : Heap → Ptr → ℕ → ℕ → Heap
new_element h fresh item key = write h fresh (some (record { next = 0; key = key; item = item }))

-- `List::List` and `List::IsEmpty`
abbrev pub new_list : Handle
new_list = record { first = 0; last = 0 }

abbrev pub is_empty : Handle → Bool
is_empty l = l.first == 0

-- `List::Append`
pub append : Heap → Handle → Ptr → ℕ → Option (Handle × Heap)
append h l fresh item = do
  let h1 = new_element h fresh item 0
  if is_empty l
      then some (record { first = fresh; last = fresh }, h1)
      else do h2 ← set_next h1 l.last fresh; some (record l { last = fresh }, h2)

-- `List::Prepend`
pub prepend : Heap → Handle → Ptr → ℕ → Option (Handle × Heap)
prepend h l fresh item = do
  let h1 = new_element h fresh item 0
  if is_empty l
      then some (record { first = fresh; last = fresh }, h1)
      else do h2 ← set_next h1 fresh l.first; some (record l { first = fresh }, h2)

-- `element->next = ptr->next; ptr->next = element; return;`
pub link_between : Heap → Ptr → Ptr → Ptr → Option (Bool × Heap)
link_between h ptr fresh next = do
  h1 ← set_next h fresh next
  h2 ← set_next h1 ptr fresh
  some (true, h2)

-- the loop of SortedInsert from `ptr` on: whether it placed the element
pub insert_loop : ℕ → Heap → Ptr → Ptr → ℕ → Option (Bool × Heap)
insert_loop zero h ptr fresh key = none
insert_loop (suc fuel) h ptr fresh key = do
  e ← h ptr
  let rest = insert_loop fuel h e.next fresh key
  if e.next == 0
      then some (false, h)
      else do e' ← h e.next; if ltb key e'.key then link_between h ptr fresh e.next else rest

-- the branch of SortedInsert behind the first element
pub insert_behind : ℕ → Heap → Handle → Ptr → ℕ → Option (Handle × Heap)
insert_behind fuel h l fresh key = do
  (placed, h1) ← insert_loop fuel h l.first fresh key
  if placed
      then some (l, h1)
      else do h2 ← set_next h1 l.last fresh; some (record l { last = fresh }, h2)

-- `List::SortedInsert`
pub sorted_insert : ℕ → Heap → Handle → Ptr → ℕ → ℕ → Option (Handle × Heap)
sorted_insert fuel h l fresh item key = do
  let h1 = new_element h fresh item key
  if is_empty l then some (record { first = fresh; last = fresh }, h1) else do
    e ← h1 l.first
    if ltb key e.key
        then (do h2 ← set_next h1 fresh l.first; some (record l { first = fresh }, h2))
        else insert_behind fuel h1 l fresh key

-- `List::SortedRemove`: the item and its key, if there is one. `List::Remove` drops the key.
pub sorted_remove : Heap → Handle → Option (Option (ℕ × ℕ) × Handle × Heap)
sorted_remove h l = if is_empty l then some (none, l, h) else do
  e ← h l.first
  let l' = if l.first == l.last then new_list else record l { first = e.next }
  some (some (e.item, e.key), l', write h l.first none)
