-- ===== src/Scan/Cleaner/Listing.antt =====
-- What a scan shows, and what the delete button then deletes.
use mathlib.Core.List.{Permᴰ}
use mathlib.Core.List.Permᴰ
use process_manger_alpha.Base.{
  ℕ, ◌≤◌, not, Bool-cases, inl, inr, List, [], ◌∷◌, ◌++◌, ◌≡◌, refl, sym, ap, subst, arith,
  if◌then◌else◌, length, length-insert_at, map, keep,
}
use process_manger_alpha.Text.{Text}
use process_manger_alpha.ListView.{Row, ListView, row_of, get_cell, is_marked}
use process_manger_alpha.ListView.Rows.{rows-insert_row}
use process_manger_alpha.Scan.{File, Folder, join_path}
use process_manger_alpha.Scan.Walk.{folder_rows, walk_folder-Perm, insert_at-Perm}
use process_manger_alpha.Scan.Deleting.{delete_marked_lem}
use process_manger_alpha.Scan.Cleaner.{
  Cleaner, matches, list_match, show_error, enum_files_postfix, scan, delete_chosen,
}

-- The row of a file whose name contains one of the postfixes.
abbrev pub match_rows : List Text → Text → File → List Row
match_rows postfixes path f =
    if matches postfixes f.name then row_of (f.name ∷ join_path path f.name ∷ []) ∷ [] else []

module _ (v : ListView) where
  open v use {Ctrl, rows, delete_all_items, rows-delete_all_items}

  shown : Ctrl × List Text → List Row
  shown (c, boxes) = rows c

  list_match-adds :
      (postfixes : List Text) (path : Text) (f : File) (i : ℕ) (s : Ctrl × List Text)
      → i ≤ length (shown s)
      → let (i', s') = list_match v postfixes path f i s in
        (i' ≤ length (shown s')) × Permᴰ (shown s') (shown s ++ match_rows postfixes path f)
  unfolding list_match shown
  list_match-adds postfixes path f i (c, boxes) h = elim (Bool-cases (matches postfixes f.name)) [
    | inl e ↦
        let texts = f.name ∷ join_path path f.name ∷ [] in
        let put = rows-insert_row v i texts c h in
        rw e (
          omega (arith, ap length put, length-insert_at i (row_of texts) (rows c)),
          subst (λ xs. Permᴰ xs (rows c ++ row_of texts ∷ [])) (sym put)
              (insert_at-Perm i (row_of texts) (rows c)),
        )
    | inr e ↦ rw e (h, Permᴰ.symm (Permᴰ.append-nil (rows c)))
  ]

  -- A scan shows the files below the chosen folder whose names contain one of the postfixes, each
  -- in one row with its name and path, and nothing else, whatever the list showed before. Hidden
  -- files and what is below hidden folders are left out. In which order the rows stand is left
  -- open.
  pub scan-Perm :
      (fd : Folder) (d : Cleaner v)
      → Permᴰ (rows (scan v fd d).list) (folder_rows (match_rows d.postfixes) d.proj_path fd)
  unfolding scan enum_files_postfix shown
  scan-Perm fd d =
      let cleared : Ctrl × List Text = (delete_all_items d.list, d.boxes) in
      subst
        (λ xs.
          Permᴰ (rows (scan v fd d).list)
            (xs ++ folder_rows (match_rows d.postfixes) d.proj_path fd))
        (rows-delete_all_items d.list)
        (walk_folder-Perm (list_match v d.postfixes) (show_error v) shown (match_rows d.postfixes)
          (list_match-adds d.postfixes) (λ text s. refl) d.proj_path fd cleared)

  -- The delete button deletes the files whose rows are marked, by the paths that the rows show, and
  -- takes these rows away; the others stay in their order.
  pub delete_chosen_lem :
      (d : Cleaner v)
      → (rows (delete_chosen v d).list ≡ keep (λ r. not (is_marked r)) (rows d.list))
        × ((delete_chosen v d).deleted
            ≡ map (λ r. get_cell 1 r.cells) (keep is_marked (rows d.list)) ++ d.deleted)
  unfolding delete_chosen
  delete_chosen_lem d =
      let (stay, gone) = delete_marked_lem v 1 d.list in (stay, ap (λ xs. xs ++ d.deleted) gone)
