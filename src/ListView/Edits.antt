-- ===== src/ListView/Edits.antt =====
-- What a thread does to a list control, one call after another, so that it can be stopped between any
-- two of them, as TerminateThread does.
use process_manger_alpha.Base.{
  ℕ, zero, suc, List, [], ◌∷◌, ◌++◌, ◌≡◌, ◌⊎◌, inl, inr, refl, sym, ap, ◌∙◌, arith, length, map,
  take, length-append, append_assoc, append-nil,
}
use process_manger_alpha.Text.{Text}
use process_manger_alpha.ListView.{Row, ListView, row_of}
use process_manger_alpha.ListView.Rows.{set_texts, insert_row, rows-insert_row_last}
use process_manger_alpha.ListView.Fill.{fill_rows}

-- InsertItem(i, _T("")) and SetItemText(i, j, s)
pub data Edit : Type 0 where
  insert_item : ℕ → Edit
  set_item_text : ℕ → ℕ → Text → Edit

abbrev pub text_edits : ℕ → ℕ → List Text → List Edit
text_edits i j [] = []
text_edits i j (s ∷ texts) = set_item_text i j s ∷ text_edits i (suc j) texts

-- The calls that fill a new row.
abbrev pub row_edits : ℕ → List Text → List Edit
row_edits i texts = insert_item i ∷ text_edits i 0 texts

-- The calls of the loop that adds a row for each entry.
abbrev pub fill_edits {ℓ} : {E : Type ℓ} → (E → List Text) → ℕ → List E → List Edit
fill_edits texts i [] = []
fill_edits texts i (e ∷ es) = row_edits i (texts e) ++ fill_edits texts (suc i) es

-- These rows: one for each of `done`, and at most one that is the row of the first of `rest` without
-- some of its last texts.
abbrev pub Ends {ℓ} : {E : Type ℓ} → (E → List Text) → List E → List E → List Row → Type ℓ
Ends {E} texts done rest xs =
    (xs ≡ map (λ e. row_of (texts e)) done)
    ⊎ ((e : E) × (more : List E) × (j : ℕ) × (rest ≡ e ∷ more)
        × (xs ≡ map (λ e'. row_of (texts e')) done ++ row_of (take j (texts e)) ∷ []))

-- The rows that a loop over these entries has added where it is stopped.
abbrev pub StoppedRows {ℓ} : {E : Type ℓ} → (E → List Text) → List E → List Row → Type ℓ
StoppedRows {E} texts es xs =
    (done : List E) × (rest : List E) × (es ≡ done ++ rest) × Ends texts done rest xs

-- The first of two lists behind one another, and of their items.
take_split {ℓ} :
    {A : Type ℓ} (k : ℕ) (xs ys : List A)
    → (take k (xs ++ ys) ≡ take k xs) ⊎ ((k' : ℕ) × (take k (xs ++ ys) ≡ xs ++ take k' ys))
take_split zero xs ys = inl refl
take_split (suc k) [] ys = inr (suc k, refl)
take_split (suc k) (x ∷ xs) ys = elim (take_split k xs ys) [
  | inl e ↦ inl (ap (◌∷◌ x) e)
  | inr (k', e) ↦ inr (k', ap (◌∷◌ x) e)
]

take-text_edits :
    (k i j : ℕ) (texts : List Text) → take k (text_edits i j texts) ≡ text_edits i j (take k texts)
take-text_edits zero i j texts = refl
take-text_edits (suc k) i j [] = refl
take-text_edits (suc k) i j (s ∷ texts) =
    ap (◌∷◌ (set_item_text i j s)) (take-text_edits k i (suc j) texts)

module _ (v : ListView) where
  open v use {Ctrl, rows}

  abbrev pub apply_edit : Edit → Ctrl → Ctrl
  apply_edit (insert_item i) c = v.insert_item i c
  apply_edit (set_item_text i j s) c = v.set_item_text i j s c

  unfoldable pub apply : List Edit → Ctrl → Ctrl
  apply [] c = c
  apply (e ∷ es) c = apply es (apply_edit e c)

  pub apply-append : (xs ys : List Edit) (c : Ctrl) → apply (xs ++ ys) c ≡ apply ys (apply xs c)
  unfolding apply
  apply-append [] ys c = refl
  apply-append (x ∷ xs) ys c = apply-append xs ys (apply_edit x c)

  apply-text_edits :
      (i j : ℕ) (texts : List Text) (c : Ctrl)
      → apply (text_edits i j texts) c ≡ set_texts v i j texts c
  unfolding apply set_texts
  apply-text_edits i j [] c = refl
  apply-text_edits i j (s ∷ texts) c = apply-text_edits i (suc j) texts (v.set_item_text i j s c)

  pub apply-row_edits :
      (i : ℕ) (texts : List Text) (c : Ctrl) → apply (row_edits i texts) c ≡ insert_row v i texts c
  unfolding apply insert_row
  apply-row_edits i texts c = apply-text_edits i 0 texts (v.insert_item i c)

  module _ {E : Type 0} (texts : E → List Text) where
    -- All calls are the loop.
    pub apply-fill_edits :
        (i : ℕ) (es : List E) (c : Ctrl)
        → apply (fill_edits texts i es) c ≡ fill_rows v texts i es c
    unfolding fill_rows
    apply-fill_edits i [] c = unfold apply in refl
    apply-fill_edits i (e ∷ es) c =
        apply-append (row_edits i (texts e)) (fill_edits texts (suc i) es) c
        ∙ rw (apply-row_edits i (texts e) c)
            (apply-fill_edits (suc i) es (insert_row v i (texts e) c))

    rows-stopped_row :
        (k i : ℕ) (e : E) (c : Ctrl)
        → i ≡ length (rows c)
        → (rows (apply (take k (row_edits i (texts e))) c) ≡ rows c)
          ⊎ ((j : ℕ) × (rows (apply (take k (row_edits i (texts e))) c)
                ≡ rows c ++ row_of (take j (texts e)) ∷ []))
    rows-stopped_row zero i e c h = inl (unfold apply in refl)
    rows-stopped_row (suc k) i e c h = inr (
      k,
      ap (λ edits. rows (apply (insert_item i ∷ edits) c)) (take-text_edits k i 0 (texts e))
          ∙ ap rows (apply-row_edits i (take k (texts e)) c)
          ∙ rows-insert_row_last v i (take k (texts e)) c h,
    )

    then_stopped :
        (e : E) (done rest : List E) (xs : List Row)
        → Ends texts done rest xs
        → Ends texts (e ∷ done) rest (row_of (texts e) ∷ xs)
    then_stopped e done rest xs (inl all) = inl (ap (◌∷◌ (row_of (texts e))) all)
    then_stopped e done rest xs (inr (e', more, j, same, part)) =
        inr (e', more, j, same, ap (◌∷◌ (row_of (texts e))) part)

    -- Stopped at any call, the loop has added the rows of the first entries, and at most a part of
    -- the next one.
    pub rows-stopped :
        (k i : ℕ) (es : List E) (c : Ctrl)
        → i ≡ length (rows c)
        → (xs : List Row) × (rows (apply (take k (fill_edits texts i es)) c) ≡ rows c ++ xs)
          × StoppedRows texts es xs
    rows-stopped zero i es c h =
        ([], unfold apply in sym (append-nil (rows c)), ([], es, refl, inl refl))
    rows-stopped (suc k) i [] c h =
        ([], unfold apply in sym (append-nil (rows c)), ([], [], refl, inl refl))
    rows-stopped (suc k) i (e ∷ es) c h =
        let others = fill_edits texts (suc i) es in
        elim (take_split (suc k) (row_edits i (texts e)) others) [
          | inl within ↦
              let cut = ap (λ edits. rows (apply edits c)) within in
              elim (rows-stopped_row (suc k) i e c h) [
                | inl same ↦
                    ([], cut ∙ same ∙ sym (append-nil (rows c)), ([], e ∷ es, refl, inl refl))
                | inr (j, part) ↦ (
                  row_of (take j (texts e)) ∷ [],
                  cut ∙ part,
                  ([], e ∷ es, refl, inr (e, es, j, refl, refl)),
                )
              ]
          | inr (k', past) ↦
              let c' = insert_row v i (texts e) c in
              let put = rows-insert_row_last v i (texts e) c h in
              let (xs, shown, (done, rest, same, ends)) =
                rows-stopped k' (suc i) es c'
                  (omega (arith, ap length put, length-append (rows c) (row_of (texts e) ∷ []))) in
              (
                row_of (texts e) ∷ xs,
                ap (λ edits. rows (apply edits c)) past
                    ∙ ap rows (apply-append (row_edits i (texts e)) (take k' others) c)
                    ∙ ap (λ c''. rows (apply (take k' others) c'')) (apply-row_edits i (texts e) c)
                    ∙ shown
                    ∙ rw put (append_assoc (rows c) (row_of (texts e) ∷ []) xs),
                (e ∷ done, rest, ap (◌∷◌ e) same, then_stopped e done rest xs ends),
              )
        ]
