-- ===== src/ListView/Rows.antt =====
-- Filling a new row: `InsertItem(i, _T(""))` and `SetItemText(i, j, ..)` for the columns in order.
use process_manger_alpha.Base.{
  ℕ, suc, ◌≤◌, List, [], ◌∷◌, ◌++◌, ◌≡◌, refl, ap, ◌∙◌, arith, length, insert_at, insert_at-length,
  modify_at-insert_at, length-insert_at, length-modify_at, append_assoc, append-nil, ◌<◌,
  insert_at_past, modify_at_past, length-append,
}
use process_manger_alpha.Text.{Text}
use process_manger_alpha.ListView.{Row, blank, set_cell, write_cell, ListView, row_of}

-- Writing the column that follows the written ones.
set_cell-length : (done : List Text) (s : Text) → set_cell (length done) s done ≡ done ++ s ∷ []
set_cell-length [] s = refl
set_cell-length (x ∷ done) s = ap (◌∷◌ x) (set_cell-length done s)

length-snoc : (done : List Text) (s : Text) → length (done ++ s ∷ []) ≡ suc (length done)
length-snoc [] s = refl
length-snoc (x ∷ done) s = ap suc (length-snoc done s)

module _ (v : ListView) where
  open v use {Ctrl, rows, insert_item, set_item_text, rows-insert_item, rows-set_item_text}

  -- SetItemText for the columns from `j` on.
  unfoldable pub set_texts : ℕ → ℕ → List Text → Ctrl → Ctrl
  set_texts i j [] c = c
  set_texts i j (s ∷ texts) c = set_texts i (suc j) texts (set_item_text i j s c)

  unfoldable pub insert_row : ℕ → List Text → Ctrl → Ctrl
  unfolding set_texts
  insert_row i texts c = set_texts i 0 texts (insert_item i c)

  rows-set_texts :
      (i : ℕ) (done texts : List Text) (xs : List Row) (c : Ctrl)
      → i ≤ length xs
      → rows c ≡ insert_at i (row_of done) xs
      → rows (set_texts i (length done) texts c) ≡ insert_at i (row_of (done ++ texts)) xs
  unfolding set_texts
  rows-set_texts i done [] xs c h e = rw append-nil e
  rows-set_texts i done (s ∷ texts) xs c h e =
      let written : rows (set_item_text i (length done) s c)
          ≡ insert_at i (row_of (done ++ s ∷ [])) xs =
        rows-set_item_text i (length done) s c
        ∙ rw (e, modify_at-insert_at i (write_cell (length done) s) (row_of done) xs h)
            (ap (λ d. insert_at i (row_of d) xs) (set_cell-length done s)) in
      let rest =
        rows-set_texts i (done ++ s ∷ []) texts xs (set_item_text i (length done) s c) h written in
      rw (append_assoc done (s ∷ []) texts, length-snoc done s) at rest

  -- A row put in at a place that is there shows the texts given, and moves the rows below it down.
  pub rows-insert_row :
      (i : ℕ) (texts : List Text) (c : Ctrl)
      → i ≤ length (rows c)
      → rows (insert_row i texts c) ≡ insert_at i (row_of texts) (rows c)
  unfolding insert_row
  rows-insert_row i texts c h =
      rows-set_texts i [] texts (rows c) (insert_item i c) h (rows-insert_item i c)

  -- A row put in below the last one.
  pub rows-insert_row_last :
      (i : ℕ) (texts : List Text) (c : Ctrl)
      → i ≡ length (rows c)
      → rows (insert_row i texts c) ≡ rows c ++ row_of texts ∷ []
  rows-insert_row_last i texts c e =
      rows-insert_row i texts c (omega arith) ∙ rw e (insert_at-length (row_of texts) (rows c))

  rows-set_texts_past :
      (i j : ℕ) (texts : List Text) (c : Ctrl)
      → length (rows c) ≤ i
      → rows (set_texts i j texts c) ≡ rows c
  unfolding set_texts
  rows-set_texts_past i j [] c h = refl
  rows-set_texts_past i j (s ∷ texts) c h =
      let same = rows-set_item_text i j s c ∙ modify_at_past i (write_cell j s) (rows c) h in
      rows-set_texts_past i (suc j) texts (set_item_text i j s c) (rw same h) ∙ same

  -- A row put in past the end of the list lands behind the last row, and its texts are lost.
  pub rows-insert_row_past :
      (i : ℕ) (texts : List Text) (c : Ctrl)
      → length (rows c) < i
      → rows (insert_row i texts c) ≡ rows c ++ blank ∷ []
  unfolding insert_row
  rows-insert_row_past i texts c h =
      let put = rows-insert_item i c ∙ insert_at_past i blank (rows c) (omega arith) in
      rows-set_texts_past i 0 texts (insert_item i c)
        (rw put (omega (arith, length-append (rows c) (blank ∷ []))))
      ∙ put

  length-set_texts :
      (i j : ℕ) (texts : List Text) (c : Ctrl)
      → length (rows (set_texts i j texts c)) ≡ length (rows c)
  unfolding set_texts
  length-set_texts i j [] c = refl
  length-set_texts i j (s ∷ texts) c =
      length-set_texts i (suc j) texts (set_item_text i j s c)
      ∙ ap length (rows-set_item_text i j s c)
      ∙ length-modify_at i (write_cell j s) (rows c)

  -- Wherever a row is put in, there is one more.
  pub length-insert_row :
      (i : ℕ) (texts : List Text) (c : Ctrl)
      → length (rows (insert_row i texts c)) ≡ suc (length (rows c))
  unfolding insert_row
  length-insert_row i texts c = omega (
    arith,
    length-set_texts i 0 texts (insert_item i c),
    ap length (rows-insert_item i c),
    length-insert_at i blank (rows c),
  )
