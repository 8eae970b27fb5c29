-- ===== src/Scan/Files/Icons.antt =====
-- The icons of the rows of the file list.
use process_manger_alpha.Base.{
  ℕ, suc, List, [], ◌∷◌, ◌++◌, ◌≡◌, refl, sym, ap, ◌∙◌, arith, length, map, append_assoc,
  length-append, get_elem?-append_length,
}
use process_manger_alpha.Text.{Text}
use process_manger_alpha.ListView.{Row, ListView, get_cell}
use process_manger_alpha.Scan.{Folder}
use process_manger_alpha.Scan.Files.{row_icons, find_files_proc}

module _ (v : ListView) where
  open v use {Ctrl, rows, get_item_text, get_item_count, get_item_text_lem, get_item_count_lem}

  row_icons-rows {ℓ} :
      {Icon : Type ℓ} (icon_of : Text → Icon) (before after : List Row) (i : ℕ) (c : Ctrl)
      → rows c ≡ before ++ after
      → i ≡ length before
      → row_icons v icon_of (length after) i c ≡ map (λ r. icon_of (get_cell 0 r.cells)) after
  unfolding row_icons
  row_icons-rows icon_of before [] i c e k = refl
  row_icons-rows icon_of before (r ∷ after) i c e k =
      let text : get_item_text i 0 c ≡ get_cell 0 r.cells =
        get_item_text_lem i 0 c ∙ rw (e, k, get_elem?-append_length before r after) refl in
      rw text (
        ap (◌∷◌ (icon_of (get_cell 0 r.cells))) (
          row_icons-rows icon_of (before ++ r ∷ []) after (suc i) c
            (e ∙ sym (append_assoc before (r ∷ []) after))
            (omega (arith, k, length-append before (r ∷ [])))))

  -- Once the files are listed, every row has the icon of its name: the name alone, without the
  -- folder that the file is in.
  pub find_files_proc-icons {ℓ} :
      {Icon : Type ℓ} (icon_of : Text → Icon) (path : Text) (fd : Folder) (c : Ctrl)
      (boxes : List Text)
      → let ((c', boxes'), icons) = find_files_proc v icon_of path fd (c, boxes) in
        icons ≡ map (λ r. icon_of (get_cell 0 r.cells)) (rows c')
  unfolding find_files_proc
  find_files_proc-icons icon_of path fd c boxes =
      rw (get_item_count_lem _) (row_icons-rows icon_of [] _ 0 _ refl refl)
