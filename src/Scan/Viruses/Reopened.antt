-- ===== src/Scan/Viruses/Reopened.antt =====
-- The scan of all disks when its dialog is opened again: the list is a new one, and `nIndex`, a
-- global of ProcessMangerAlpha/CAllKillingDialog.cpp, goes on from where it was.
use process_manger_alpha.Base.{
  ℕ, ◌<◌, ◌^◌, Bool-cases, inl, inr, List, [], ◌∷◌, ◌++◌, ◌≡◌, refl, sym, ap, ◌∙◌, arith, length,
  length-append, append_assoc, append-nil, if◌then◌else◌, leb, list_eq, map, keep, insert_at_past,
  modify_at_past,
}
use process_manger_alpha.Text.{Text, upper}
use process_manger_alpha.ListView.{Row, ListView, blank, write_cell}
use process_manger_alpha.Scan.{File, Folder}
use process_manger_alpha.Scan.Walk.{folder_rows}
use process_manger_alpha.Scan.Viruses.Race.{run-detect_calls}
use process_manger_alpha.Scan.Ordered.{walk_folder-append}
use process_manger_alpha.Scan.Viruses.{
  Disk, detect, digest_text, Shared, run, list_all, check_all, enum_all, show_error, load_database,
}

module _ (v : ListView) (md5 : List ℕ → List ℕ) where
  open v use {Ctrl, rows, insert_item, set_item_text, rows-insert_item, rows-set_item_text}

  -- OnInitDialog, on `localVirusVt` and the shared list and counter: the entries of the file go
  -- behind those that are there, the list `c` is a new one, and `nIndex` is left as it is.
  unfoldable pub on_init_dialog :
      List Text → Ctrl → List Text × Shared v md5 → List Text × Shared v md5
  on_init_dialog entries c (known, s) = (load_database entries known, record s { list = c })

  -- A blank row for each entry of the list of viruses that the MD5 of a file is equal to; none for a
  -- file of 2 GB or more.
  abbrev pub blank_rows : List Text → Text → File → List Row
  blank_rows known path f =
      if leb (2 ^ 31) f.get_file_size
      then []
      else map (λ entry. blank) (keep (list_eq (digest_text upper (md5 f.content))) known)

  IsAhead : Shared v md5 × List Text → Type 0
  IsAhead (s, boxes) = length (rows s.list) < s.n_index

  shown_rows : Shared v md5 × List Text → List Row
  shown_rows (s, boxes) = rows s.list

  run-detect_ahead :
      (k : Disk) (path text : Text) (s : Shared v md5)
      → length (rows s.list) < s.n_index
      → let s' = run v md5 (detect k path text) s in
        (length (rows s'.list) < s'.n_index) × (rows s'.list ≡ rows s.list ++ blank ∷ [])
  run-detect_ahead k path text s h =
      let (calls, counted) = run-detect_calls v md5 k path text s in
      let i = s.n_index in
      let new = rows s.list ++ blank ∷ [] in
      let size = length-append (rows s.list) (blank ∷ []) in
      let put : rows (insert_item i s.list) ≡ new =
        rows-insert_item i s.list ∙ insert_at_past i blank (rows s.list) (omega arith) in
      let named : rows (set_item_text i 0 path (insert_item i s.list)) ≡ new =
        rows-set_item_text i 0 path _
        ∙ rw put (modify_at_past i (write_cell 0 path) new (omega (arith, size))) in
      let done : rows (run v md5 (detect k path text) s).list ≡ new =
        ap rows calls
        ∙ rows-set_item_text i 1 text _
        ∙ rw named (modify_at_past i (write_cell 1 text) new (omega (arith, size))) in
      (omega (arith, counted, ap length done, size), done)

  list_all_ahead :
      (k : Disk) (known : List Text) (path text : Text) (s : Shared v md5)
      → length (rows s.list) < s.n_index
      → let s' = list_all v md5 k known path text s in
        (length (rows s'.list) < s'.n_index)
        × (rows s'.list ≡ rows s.list ++ map (λ entry. blank) (keep (list_eq text) known))
  unfolding list_all
  list_all_ahead k [] path text s h = (h, sym (append-nil (rows s.list)))
  list_all_ahead k (entry ∷ known) path text s h = elim (Bool-cases (list_eq text entry)) [
    | inl same ↦
        let (h', one) = run-detect_ahead k path text s h in
        let (h'', rest) = list_all_ahead k known path text (run v md5 (detect k path text) s) h' in
        rw (list_all, same) (h'', rest ∙ rw one (append_assoc (rows s.list) (blank ∷ []) _))
    | inr other ↦ rw (list_all, other) (list_all_ahead k known path text s h)
  ]

  -- A thread that scans a folder alone, with `nIndex` above the number of rows, as when viruses were
  -- listed before the dialog was closed: it adds only blank rows, one for each file in the folder and
  -- below it and each entry of the list of viruses that the file's MD5 is equal to, and `nIndex` is
  -- above the number of rows again. Hidden files and folders and files of 2 GB or more are left out.
  pub enum_all_ahead :
      (k : Disk) (known : List Text) (path : Text) (fd : Folder) (s : Shared v md5)
      (boxes : List Text)
      → length (rows s.list) < s.n_index
      → let (s', boxes') = enum_all v md5 k known path fd (s, boxes) in
        (length (rows s'.list) < s'.n_index)
        × (rows s'.list ≡ rows s.list ++ folder_rows (blank_rows known) path fd)
  unfolding enum_all IsAhead shown_rows
  enum_all_ahead k known path fd s boxes h =
      walk_folder-append (check_all v md5 k known) (show_error v md5) shown_rows (blank_rows known)
        IsAhead
        (λ path' f i (t, shown) ahead.
          unfold check_all in
          elim (Bool-cases (leb (2 ^ 31) f.get_file_size)) [
            | inl large ↦ rw large (ahead, sym (append-nil (rows t.list)))
            | inr small ↦ rw small (list_all_ahead k known _ _ t ahead)
          ])
        (λ text st inv. (inv, refl)) path fd (s, boxes) h

  -- When the dialog is opened with `nIndex` above 0, as it is once a virus was listed, a thread that
  -- scans a folder alone lists nothing but blank rows, one for each file in the folder and below it,
  -- hidden ones and those of 2 GB or more left out, and each entry that its MD5 is equal to.
  pub enum_all-on_init_dialog :
      (k : Disk) (entries known : List Text) (c : Ctrl) (s : Shared v md5) (path : Text)
      (fd : Folder)
      → rows c ≡ []
      → 0 < s.n_index
      → let (known', s') = on_init_dialog entries c (known, s) in
        rows (enum_all v md5 k known' path fd (s', [])).0.list
        ≡ folder_rows (blank_rows known') path fd
  unfolding on_init_dialog
  enum_all-on_init_dialog k entries known c s path fd empty ahead =
      let s' : Shared v md5 = record s { list = c } in
      let (still, done) =
        enum_all_ahead k (load_database entries known) path fd s' []
          (omega (arith, ap length empty)) in
      done ∙ ap (λ xs. xs ++ folder_rows (blank_rows (load_database entries known)) path fd) empty
