-- ===== src/Tasks/Heap/Closing.antt =====
-- What the thread of the heap dialog comes to, and what it has shown when the dialog is closed.
use process_manger_alpha.Base.{
  ℕ, suc, ◌+◌, List, [], ◌∷◌, ◌++◌, ◌≡◌, refl, sym, ap, ◌∙◌, arith, length, append_assoc, take,
}
use process_manger_alpha.Text.{Text, tcstol}
use process_manger_alpha.ListView.{ListView}
use process_manger_alpha.ListView.Fill.{fill_rows}
use process_manger_alpha.ListView.Edits.{
  fill_edits, row_edits, apply, apply-append, apply-fill_edits, StoppedRows, rows-stopped,
}
use process_manger_alpha.Tasks.Heap.{
  HeapEntry, heap_texts, all_blocks, heap_edits, get_heap_proc, heap_rows, get_heap_info, on_close,
}

fill_edits-append :
    (i : ℕ) (xs ys : List HeapEntry)
    → fill_edits heap_texts i (xs ++ ys)
      ≡ fill_edits heap_texts i xs ++ fill_edits heap_texts (i + length xs) ys
fill_edits-append i [] ys = ap (λ n. fill_edits heap_texts n ys) (omega arith)
fill_edits-append i (x ∷ xs) ys =
    let edits = row_edits i (heap_texts x) in
    let first = fill_edits heap_texts (suc i) xs in
    let next : suc i + length xs ≡ i + suc (length xs) = omega arith in
    ap (λ more. edits ++ more) (fill_edits-append (suc i) xs ys)
    ∙ sym (append_assoc edits first _)
    ∙ ap (λ n. (edits ++ first) ++ fill_edits heap_texts n ys) next

-- The two loops are one over all blocks.
heap_edits-all_blocks :
    (i : ℕ) (hs : List (List HeapEntry)) → heap_edits i hs ≡ fill_edits heap_texts i (all_blocks hs)
unfolding heap_edits
heap_edits-all_blocks i [] = refl
heap_edits-all_blocks i (h ∷ hs) =
    ap (λ more. fill_edits heap_texts i h ++ more) (heap_edits-all_blocks (i + length h) hs)
    ∙ sym (fill_edits-append i h (all_blocks hs))

module _ (v : ListView) where
  open v use {Ctrl, rows}

  apply-heap_edits :
      (i : ℕ) (hs : List (List HeapEntry)) (c : Ctrl)
      → apply v (heap_edits i hs) c ≡ heap_rows v i hs c
  unfolding heap_edits heap_rows
  apply-heap_edits i [] c = unfold apply in refl
  apply-heap_edits i (h ∷ hs) c =
      apply-append v (fill_edits heap_texts i h) (heap_edits (i + length h) hs) c
      ∙ rw (apply-fill_edits v heap_texts i h c)
          (apply-heap_edits (i + length h) hs (fill_rows v heap_texts i h c))

  -- The thread, when nothing stops it, fills the list as getHeapInfoByProcID does.
  pub apply-get_heap_proc :
      (heaps : ℕ → List (List HeapEntry)) (proc_id : Text) (c : Ctrl)
      → apply v (get_heap_proc heaps proc_id) c ≡ get_heap_info v heaps proc_id c
  unfolding get_heap_proc get_heap_info
  apply-get_heap_proc heaps proc_id c = apply-heap_edits 0 (heaps (tcstol 10 proc_id)) c

  -- Whenever the dialog is closed, the list, empty at the start, has the rows of the first blocks of
  -- the process, in order and whole, and at most one more, which is that of the next block without
  -- some of its last texts.
  pub on_close-StoppedRows :
      (k : ℕ) (heaps : ℕ → List (List HeapEntry)) (proc_id : Text) (c : Ctrl)
      → rows c ≡ []
      → StoppedRows heap_texts
          (all_blocks (heaps (tcstol 10 proc_id)))
          (rows (on_close v k heaps proc_id c))
  unfolding on_close get_heap_proc
  on_close-StoppedRows k heaps proc_id c empty =
      let blocks = all_blocks (heaps (tcstol 10 proc_id)) in
      let (xs, shown, ends) =
        rows-stopped v heap_texts k 0 blocks c (omega (arith, ap length empty)) in
      let all : rows (on_close v k heaps proc_id c) ≡ xs =
        ap (λ edits. rows (apply v (take k edits) c))
          (heap_edits-all_blocks 0 (heaps (tcstol 10 proc_id)))
        ∙ shown
        ∙ ap (λ before. before ++ xs) empty in
      rw all ends
