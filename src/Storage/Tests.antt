-- ===== src/Storage/Tests.antt =====
-- The free list and the reader heap at concrete states.
use sqldb.Base.{
  ◌≡◌, ok, ℕ, zero, suc, ◌≢◌, refl, if◌then◌else◌, ◌==◌, [], ◌∷◌, some, get_elem?, pos, negsuc,
  arith,
}
use sqldb.Storage.FreeList.{
  version_before, FreeList, zeroed, seq_to_idx, push_tail, append_item, set_item,
}
use sqldb.Storage.FreeList.Queue.{IsQueue, Hands, push_tail-IsQueue}
use sqldb.Storage.ReaderHeap.{
  ReaderHeap, down, down_loop, less, older_kid, push, remove, remove_at, set_index, sift, swap, up,
  up_loop,
}
use sqldb.Storage.ReaderHeap.Order.{Ordered, push-Ordered}
use sqldb.Storage.ReaderHeap.Removal.{remove-Ordered}
use sqldb.Storage.ReaderHeap.Slots.{Indexed}

-- An empty list, whose node is page 1.
abbrev start : FreeList
start = record {
  state = record { head_page = 1; head_seq = 0; tail_page = 1; tail_seq = 0 };
  version = 3;
  min_reader = 3;
  pages = λ _. zeroed;
  end_page = 9;
}

-- Page 7, freed at version 3, while a reader of version 3 may be open, and later.
abbrev held : FreeList
held = append_item 7 start

abbrev later : FreeList
later = record held { version = 4; min_reader = 4 }

later-IsQueue : IsQueue later ((7, 3) ∷ [])
unfolding append_item set_item seq_to_idx
later-IsQueue = record {
  one_node = refl;
  counted = refl;
  small = omega arith;
  within = omega arith;
  slots = (refl, refl, tt);
}

-- Page 8 goes behind it, and page 7 is the first one out.
push_tail-IsQueue_example :
    (m : FreeList) × (push_tail 8 later ≡ ok m)
    × IsQueue m ((7, 3) ∷ (8, 4) ∷ [])
    × Hands m ((7, 3) ∷ (8, 4) ∷ [])
unfolding version_before append_item set_item seq_to_idx
push_tail-IsQueue_example =
    push_tail-IsQueue later 8 ((7, 3) ∷ []) later-IsQueue (omega arith) refl (omega arith)
      (omega arith)

-- Readers 1 and 2, of versions 5 and 3.
abbrev two_readers : ReaderHeap
two_readers = record {
  items = 2 ∷ 1 ∷ [];
  version = λ r. if r == 1 then 5 else 3;
  heap_index = λ r. if r == 2 then pos 0 else if r == 1 then pos 1 else negsuc 0;
}

two_readers-Indexed : Indexed two_readers
two_readers-Indexed zero r e = ground arith
two_readers-Indexed (suc zero) r e = ground arith
two_readers-Indexed (suc (suc i)) r e = ground arith

new_reader : (i : ℕ) → get_elem? two_readers.items i ≢ some 4
new_reader zero e = ground arith
new_reader (suc zero) e = ground arith
new_reader (suc (suc i)) e = ground arith

-- The heap that remove leaves of the two, slot 0 gone.
abbrev after : ReaderHeap → ReaderHeap
after h = set_index 2 (negsuc 0) (sift (record (swap h 0 1) { items = 1 ∷ [] }) 0)

two_readers-Ordered : Ordered two_readers
unfolding less
two_readers-Ordered zero h = absurd (omega arith)
two_readers-Ordered (suc zero) h = refl
two_readers-Ordered (suc (suc i)) h = refl

push-Ordered_example : Ordered (push two_readers 4)
push-Ordered_example = push-Ordered two_readers 4 two_readers-Ordered

remove-Ordered_example : Ordered (after two_readers)
unfolding remove remove_at set_index swap less up up_loop down down_loop older_kid sift
remove-Ordered_example = remove-Ordered two_readers (after two_readers) 0 2 two_readers-Ordered refl
