-- ===== src/Scan/Viruses/Stopped.antt =====
-- The thread of the scan of a folder, byKillingFilesProc of ProcessMangerAlpha/CByPathKillingDialog.cpp,
-- as its calls on the list, and OnClose, which terminates it wherever it is.
use process_manger_alpha.Base.{
  ℕ, suc, zero, ◌^◌, Bool-cases, inl, inr, List, [], ◌∷◌, ◌++◌, ◌≡◌, refl, sym, ap, ◌∙◌,
  if◌then◌else◌, leb, list_eq, take, All, All-append, All-split, All-take, keep, map,
}
use process_manger_alpha.Text.{Text, lower}
use process_manger_alpha.ListView.{ListView, blank, write_cell}
use process_manger_alpha.ListView.Rows.{insert_row}
use process_manger_alpha.ListView.Edits.{
  Edit, insert_item, set_item_text, row_edits, apply, apply-append, apply-row_edits,
}
use process_manger_alpha.Scan.{File, Folder, join_path}
use process_manger_alpha.Scan.Walk.{folder_rows}
use process_manger_alpha.Scan.Collected.{walk_folder-does, folder_rows-transfer}
use process_manger_alpha.Scan.Viruses.{
  digest_text, list_by_path, check_by_path, enum_by_path, show_error,
}
use process_manger_alpha.Scan.Viruses.Paths.{
  All-insert_at, All-modify_at, set_cell_here, set_cell_there, ShowsPath,
}

-- The calls of the comparison with the entries from `index` on.
unfoldable pub list_edits : List Text → ℕ → Text → Text → List Edit
list_edits [] index path text = []
list_edits (entry ∷ known) index path text =
    (if list_eq text entry then row_edits index (path ∷ text ∷ []) else [])
    ++ list_edits known (suc index) path text

module _ (md5 : List ℕ → List ℕ) (known : List Text) where
  unfoldable pub file_edits : Text → File → List Edit
  unfolding list_edits
  file_edits path f =
      if leb (2 ^ 31) f.get_file_size
      then []
      else list_edits known 0 (join_path path f.name) (digest_text lower (md5 f.content))

  -- byKillingFilesProc, at the folder `strDirPath`
  unfoldable pub by_killing_files_proc : Text → Folder → List Edit
  unfolding file_edits
  by_killing_files_proc path fd = folder_rows file_edits path fd

-- A path for each entry of the list of viruses that the MD5 of a file is equal to; none for a file of
-- 2 GB or more.
abbrev pub infected_paths : (List ℕ → List ℕ) → List Text → Text → File → List Text
infected_paths md5 known path f =
    if leb (2 ^ 31) f.get_file_size
    then []
    else map (λ entry. join_path path f.name)
        (keep (list_eq (digest_text lower (md5 f.content))) known)

module _ (v : ListView) (md5 : List ℕ → List ℕ) where
  open v use {Ctrl, rows, rows-insert_item, rows-set_item_text}

  -- OnClose, when the thread has made its first `k` calls: the list as it is left.
  unfoldable pub on_close : ℕ → List Text → Text → Folder → Ctrl → Ctrl
  on_close k known path fd c = apply v (take k (by_killing_files_proc md5 known path fd)) c

  list_by_path-apply :
      (known : List Text) (index : ℕ) (path text : Text) (c : Ctrl)
      → list_by_path v md5 known index path text c ≡ apply v (list_edits known index path text) c
  unfolding list_by_path list_edits
  list_by_path-apply [] index path text c = unfold apply in refl
  list_by_path-apply (entry ∷ known) index path text c = elim (Bool-cases (list_eq text entry)) [
    | inl same ↦
        let put = insert_row v index (path ∷ text ∷ []) c in
        let edits = row_edits index (path ∷ text ∷ []) in
        let rest = list_by_path-apply known (suc index) path text put in
        rw (list_by_path, same)
          (rest
            ∙ ap (apply v (list_edits known (suc index) path text))
                (sym (apply-row_edits v index (path ∷ text ∷ []) c))
            ∙ sym (apply-append v edits (list_edits known (suc index) path text) c))
    | inr other ↦ rw (list_by_path, other) (list_by_path-apply known (suc index) path text c)
  ]

  -- The thread, when nothing stops it, leaves the list as enumFilesByDir does.
  pub enum_by_path-apply :
      (known : List Text) (path : Text) (fd : Folder) (c : Ctrl) (boxes : List Text)
      → (enum_by_path v md5 known path fd (c, boxes)).0
        ≡ apply v (by_killing_files_proc md5 known path fd) c
  unfolding enum_by_path by_killing_files_proc
  enum_by_path-apply known path fd c boxes =
      walk_folder-does (check_by_path v md5 known) (show_error v md5) (λ st. st.0) (apply v)
        (λ t. unfold apply in refl) (apply-append v) (file_edits md5 known)
        (λ path' f i (t, shown).
          unfold check_by_path in
          elim (Bool-cases (leb (2 ^ 31) f.get_file_size)) [
            | inl large ↦ rw large (unfold apply in refl)
            | inr small ↦ rw small (list_by_path-apply known 0 _ _ t)
          ])
        (λ text st. refl) path fd (c, boxes)

  module _ (P : Text → Type 0) where
    abbrev EditsPath : Edit → Type 0
    EditsPath (insert_item i) = Unit
    EditsPath (set_item_text i zero s) = P s
    EditsPath (set_item_text i (suc zero) s) = Unit
    EditsPath (set_item_text i (suc (suc j)) s) = ⊥

    list_edits-All :
        (known : List Text) (index : ℕ) (path text : Text)
        → All P (map (λ entry. path) (keep (list_eq text) known))
        → All EditsPath (list_edits known index path text)
    unfolding list_edits
    list_edits-All [] index path text h = tt
    list_edits-All (entry ∷ known) index path text h = elim (Bool-cases (list_eq text entry)) [
      | inl same ↦
          let (here, there) = rw same at h in
          rw same (tt, (here, (tt, list_edits-All known (suc index) path text there)))
      | inr other ↦ rw other (list_edits-All known (suc index) path text (rw other at h))
    ]

    by_killing_files_proc-All :
        (known : List Text) (path : Text) (fd : Folder)
        → All P (folder_rows (infected_paths md5 known) path fd)
        → All EditsPath (by_killing_files_proc md5 known path fd)
    unfolding by_killing_files_proc
    by_killing_files_proc-All known path fd h =
        folder_rows-transfer (infected_paths md5 known) (file_edits md5 known) (All P)
          (All EditsPath) (All-split P) tt (All-append EditsPath)
          (λ path' f q. elim (Bool-cases (leb (2 ^ 31) f.get_file_size)) [
            | inl large ↦ rw large tt
            | inr small ↦ rw small (list_edits-All known 0 _ _ (rw small at q))
          ])
          path fd h

    apply-ShowsPath :
        (edits : List Edit) (c : Ctrl)
        → P []
        → All EditsPath edits
        → All (ShowsPath P) (rows c)
        → All (ShowsPath P) (rows (apply v edits c))
    unfolding apply
    apply-ShowsPath [] c none_set sets h = h
    apply-ShowsPath (insert_item i ∷ edits) c none_set (p, sets) h =
        apply-ShowsPath edits (v.insert_item i c) none_set sets
          (rw (rows-insert_item i c) (All-insert_at (ShowsPath P) i blank (rows c) none_set h))
    apply-ShowsPath (set_item_text i zero s ∷ edits) c none_set (p, sets) h =
        apply-ShowsPath edits (v.set_item_text i 0 s c) none_set sets (
          rw (rows-set_item_text i 0 s c) (
            All-modify_at (ShowsPath P) i (write_cell 0 s) (rows c)
              (λ r q. rw (set_cell_here s r.cells) p) h))
    apply-ShowsPath (set_item_text i (suc zero) s ∷ edits) c none_set (p, sets) h =
        apply-ShowsPath edits (v.set_item_text i 1 s c) none_set sets (
          rw (rows-set_item_text i 1 s c) (
            All-modify_at (ShowsPath P) i (write_cell 1 s) (rows c)
              (λ r q. rw (set_cell_there s r.cells) q) h))
    apply-ShowsPath (set_item_text i (suc (suc j)) s ∷ edits) c none_set (p, sets) h = absurd p

    -- Whatever holds of the empty text, of the path of every file below the folder that the list of
    -- viruses has, hidden ones and those of 2 GB or more left out, and of the paths that are listed at
    -- the start, holds of every path that is listed whenever the dialog is closed.
    pub on_close-ShowsPath :
        (k : ℕ) (known : List Text) (path : Text) (fd : Folder) (c : Ctrl)
        → P []
        → All P (folder_rows (infected_paths md5 known) path fd)
        → All (ShowsPath P) (rows c)
        → All (ShowsPath P) (rows (on_close k known path fd c))
    unfolding on_close
    on_close-ShowsPath k known path fd c none_set infected before =
        apply-ShowsPath (take k (by_killing_files_proc md5 known path fd)) c none_set
          (All-take EditsPath k _ (by_killing_files_proc-All known path fd infected)) before
