-- ===== src/Scan/Ordered.antt =====
-- A walk whose visits put their rows at the end, as long as an invariant holds: the rows come in the
-- order in which the files are found.
use process_manger_alpha.Base.{
  ℕ, Bool-cases, inl, inr, List, ◌++◌, ◌≡◌, sym, ap, ◌∙◌, append_assoc, append-nil,
}
use process_manger_alpha.Text.{Text}
use process_manger_alpha.ListView.{Row}
use process_manger_alpha.Scan.{
  File, Folder, refused, opened, Entries, no_more, file_entry, folder_entry, is_skipped, join_path,
  walk_folder, walk_entries,
}
use process_manger_alpha.Scan.Walk.{folder_rows, entries_rows}

module _ {S : Type 0} (visit : Text → File → ℕ → S → ℕ × S) (warn : Text → S → S)
    (rows : S → List Row) (rows_of : Text → File → List Row) (Inv : S → Type 0)
    (visit-appends : (path : Text) (f : File) (i : ℕ) (s : S)
      → Inv s
      → let (i', s') = visit path f i s in Inv s' × (rows s' ≡ rows s ++ rows_of path f))
    (warn-appends : (text : Text) (s : S)
      → Inv s
      → Inv (warn text s) × (rows (warn text s) ≡ rows s)) where
  Appended : S → S → List Row → Type 0
  Appended s s' new = Inv s' × (rows s' ≡ rows s ++ new)

  then_appended :
      (s s' s'' : S) (new more : List Row)
      → rows s' ≡ rows s ++ new
      → Appended s' s'' more
      → Appended s s'' (new ++ more)
  unfolding Appended
  then_appended s s' s'' new more e (inv, e') =
      (inv, e' ∙ ap (λ xs. xs ++ more) e ∙ append_assoc (rows s) new more)

  mutual
    unfolding walk_folder folder_rows Appended then_appended

    pub walk_folder-append :
        (path : Text) (fd : Folder) (s : S)
        → Inv s
        → Inv (walk_folder visit warn path fd s)
          × (rows (walk_folder visit warn path fd s) ≡ rows s ++ folder_rows rows_of path fd)
    walk_folder-append path (refused code) s inv =
        let (inv', same) = warn-appends _ s inv in (inv', same ∙ sym (append-nil (rows s)))
    walk_folder-append path (opened es) s inv = walk_entries-append path es 0 s inv

    pub walk_entries-append :
        (path : Text) (es : Entries) (i : ℕ) (s : S)
        → Inv s
        → Inv (walk_entries visit warn path es i s)
          × (rows (walk_entries visit warn path es i s) ≡ rows s ++ entries_rows rows_of path es)
    walk_entries-append path no_more i s inv = (inv, sym (append-nil (rows s)))
    walk_entries-append path (file_entry f es) i s inv =
        elim (Bool-cases (is_skipped f.name f.hidden)) [
          | inl e ↦ rw e (walk_entries-append path es i s inv)
          | inr e ↦
              let (i', s') = visit path f i s in
              let (inv', p) = visit-appends path f i s inv in
              rw e
                (then_appended s s' _ (rows_of path f) _ p (walk_entries-append path es i' s' inv'))
        ]
    walk_entries-append path (folder_entry name hidden sub es) i s inv =
        elim (Bool-cases (is_skipped name hidden)) [
          | inl e ↦ rw e (walk_entries-append path es i s inv)
          | inr e ↦
              let s' = walk_folder visit warn (join_path path name) sub s in
              let (inv', p) = walk_folder-append (join_path path name) sub s inv in
              rw e (then_appended s s' _ _ _ p (walk_entries-append path es i s' inv'))
        ]
