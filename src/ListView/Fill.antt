-- ===== src/ListView/Fill.antt =====
-- The loop by which the dialogs fill a list from what the system reports: for every entry, in order,
-- `InsertItem(i, _T(""))`, the texts of its columns, and `i++`.
use process_manger_alpha.Base.{
  ℕ, suc, List, [], ◌∷◌, ◌++◌, ◌≡◌, sym, ap, ◌∙◌, arith, length, map, length-append, append_assoc,
  append-nil,
}
use process_manger_alpha.Text.{Text}
use process_manger_alpha.ListView.{ListView, row_of}
use process_manger_alpha.ListView.Rows.{insert_row, rows-insert_row_last}

module _ (v : ListView) where
  open v use {Ctrl, rows}

  module _ {E : Type 0} (texts : E → List Text) where
    unfoldable pub fill_rows : ℕ → List E → Ctrl → Ctrl
    fill_rows i [] c = c
    fill_rows i (e ∷ es) c = fill_rows (suc i) es (insert_row v i (texts e) c)

    -- Started at the end of the list, the loop adds one row for each entry, in order.
    pub rows-fill_rows :
        (i : ℕ) (es : List E) (c : Ctrl)
        → i ≡ length (rows c)
        → rows (fill_rows i es c) ≡ rows c ++ map (λ e. row_of (texts e)) es
    unfolding fill_rows
    rows-fill_rows i [] c e = sym (append-nil (rows c))
    rows-fill_rows i (x ∷ es) c e =
        let shown = rows-insert_row_last v i (texts x) c e in
        rows-fill_rows (suc i) es (insert_row v i (texts x) c)
          (omega (arith, ap length shown, length-append (rows c) (row_of (texts x) ∷ [])))
        ∙ rw shown (append_assoc (rows c) (row_of (texts x) ∷ []) (map (λ e. row_of (texts e)) es))
