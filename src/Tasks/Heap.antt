-- ===== src/Tasks/Heap.antt =====
-- The heap blocks of a process: ProcessMangerAlpha/CHeapDialog.cpp. A thread fills the list, and
-- closing the dialog terminates it wherever it is.
pub mod Closing
use process_manger_alpha.Base.{
  ℕ, suc, ◌+◌, List, [], ◌∷◌, ◌++◌, ◌≡◌, refl, sym, ap, ◌∙◌, arith, length, length-append, map,
  append_assoc, append-nil, take,
}
use process_manger_alpha.Text.{Text, codes, upper, format_hex, format_decimal, tcstol}
use process_manger_alpha.ListView.{ListView, row_of}
use process_manger_alpha.ListView.Edits.{Edit, fill_edits, apply}
use process_manger_alpha.ListView.Fill.{fill_rows, rows-fill_rows}

pub record HeapEntry : Type 0 where
  pub heap_id : ℕ
  pub block_size : ℕ

abbrev pub heap_texts : HeapEntry → List Text
heap_texts h = (codes "0x" ++ format_hex upper h.heap_id) ∷ format_decimal h.block_size ∷ []

abbrev pub all_blocks : List (List HeapEntry) → List HeapEntry
all_blocks [] = []
all_blocks (h ∷ hs) = h ++ all_blocks hs

-- The calls of the two loops.
unfoldable pub heap_edits : ℕ → List (List HeapEntry) → List Edit
heap_edits i [] = []
heap_edits i (h ∷ hs) = fill_edits heap_texts i h ++ heap_edits (i + length h) hs

-- getHeapProc: the calls of the thread that OnInitDialog starts.
unfoldable pub get_heap_proc : (ℕ → List (List HeapEntry)) → Text → List Edit
unfolding heap_edits
get_heap_proc heaps proc_id = heap_edits 0 (heaps (tcstol 10 proc_id))

length-map {ℓ κ} :
    {A : Type ℓ} {B : Type κ} (f : A → B) (xs : List A) → length (map f xs) ≡ length xs
length-map f [] = refl
length-map f (x ∷ xs) = ap suc (length-map f xs)

map-append {ℓ κ} :
    {A : Type ℓ} {B : Type κ} (f : A → B) (xs ys : List A) → map f (xs ++ ys) ≡ map f xs ++ map f ys
map-append f [] ys = refl
map-append f (x ∷ xs) ys = ap (◌∷◌ (f x)) (map-append f xs ys)

module _ (v : ListView) where
  open v use {Ctrl, rows}

  -- The two loops, over the heaps and over the blocks of each; they share the counter `i`.
  unfoldable pub heap_rows : ℕ → List (List HeapEntry) → Ctrl → Ctrl
  heap_rows i [] c = c
  heap_rows i (h ∷ hs) c = heap_rows (i + length h) hs (fill_rows v heap_texts i h c)

  -- getHeapInfoByProcID, where `heaps` is what the system reports of the process with this number
  unfoldable pub get_heap_info : (ℕ → List (List HeapEntry)) → Text → Ctrl → Ctrl
  unfolding heap_rows
  get_heap_info heaps proc_id c = heap_rows 0 (heaps (tcstol 10 proc_id)) c

  -- OnClose, when the thread that getHeapProc is has made its first `k` calls: the list as it is left.
  unfoldable pub on_close : ℕ → (ℕ → List (List HeapEntry)) → Text → Ctrl → Ctrl
  unfolding get_heap_proc
  on_close k heaps proc_id c = apply v (take k (get_heap_proc heaps proc_id)) c

  rows-heap_rows :
      (i : ℕ) (hs : List (List HeapEntry)) (c : Ctrl)
      → i ≡ length (rows c)
      → rows (heap_rows i hs c) ≡ rows c ++ map (λ h. row_of (heap_texts h)) (all_blocks hs)
  unfolding heap_rows
  rows-heap_rows i [] c e = sym (append-nil (rows c))
  rows-heap_rows i (h ∷ hs) c e =
      let new = map (λ h. row_of (heap_texts h)) h in
      let shown = rows-fill_rows v heap_texts i h c e in
      rows-heap_rows (i + length h) hs (fill_rows v heap_texts i h c) (
        omega (
          arith,
          ap length shown,
          length-append (rows c) new,
          length-map (λ h. row_of (heap_texts h)) h,
        ))
      ∙ rw (shown, map-append (λ h. row_of (heap_texts h)) h (all_blocks hs))
          (append_assoc (rows c) new (map (λ h. row_of (heap_texts h)) (all_blocks hs)))

  -- The empty list is filled with the blocks of all the heaps of the process, heap by heap.
  pub get_heap_info_lem :
      (heaps : ℕ → List (List HeapEntry)) (proc_id : Text) (c : Ctrl)
      → rows c ≡ []
      → rows (get_heap_info heaps proc_id c)
        ≡ map (λ h. row_of (heap_texts h)) (all_blocks (heaps (tcstol 10 proc_id)))
  unfolding get_heap_info
  get_heap_info_lem heaps proc_id c e =
      rows-heap_rows 0 (heaps (tcstol 10 proc_id)) c (rw e refl) ∙ rw e refl
