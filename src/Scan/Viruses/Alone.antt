-- ===== src/Scan/Viruses/Alone.antt =====
-- The scan of a disk by one thread.
use process_manger_alpha.Base.{
  ℕ, ◌^◌, Bool-cases, inl, inr, List, [], ◌∷◌, ◌++◌, ◌≡◌, refl, sym, if◌then◌else◌, leb, length,
  map, keep, list_eq, append-nil,
}
use process_manger_alpha.Text.{Text, upper}
use process_manger_alpha.ListView.{Row, ListView, row_of}
use process_manger_alpha.Scan.{File, Folder, join_path}
use process_manger_alpha.Scan.Walk.{folder_rows}
use process_manger_alpha.Scan.Ordered.{walk_folder-append}
use process_manger_alpha.Scan.Viruses.{Disk, digest_text, Shared, check_all, enum_all, show_error}
use process_manger_alpha.Scan.Viruses.Race.{list_all_lem}

module _ (v : ListView) (md5 : List ℕ → List ℕ) where
  open v use {Ctrl, rows}

  -- A row for each entry of the list of viruses that the MD5 of a file is equal to; none for a file
  -- of 2 GB or more.
  abbrev pub infected_rows : List Text → Text → File → List Row
  infected_rows known path f =
      if leb (2 ^ 31) f.get_file_size
      then []
      else map (λ entry. row_of (join_path path f.name ∷ digest_text upper (md5 f.content) ∷ []))
          (keep (list_eq (digest_text upper (md5 f.content))) known)

  IsCounted : Shared v md5 × List Text → Type 0
  IsCounted (s, boxes) = s.n_index ≡ length (rows s.list)

  listed_rows : Shared v md5 × List Text → List Row
  listed_rows (s, boxes) = rows s.list

  check_all-appends :
      (k : Disk) (known : List Text) (path : Text) (f : File) (i : ℕ) (s : Shared v md5 × List Text)
      → IsCounted s
      → let (i', s') = check_all v md5 k known path f i s in
        IsCounted s' × (listed_rows s' ≡ listed_rows s ++ infected_rows known path f)
  unfolding check_all IsCounted listed_rows
  check_all-appends k known path f i (s, boxes) e =
      elim (Bool-cases (leb (2 ^ 31) f.get_file_size)) [
        | inl large ↦ rw large (e, sym (append-nil (rows s.list)))
        | inr small ↦
            let (done, counted) =
              list_all_lem v md5 k known (join_path path f.name) (digest_text upper (md5 f.content))
                s e in
            rw small (counted, done)
      ]

  -- A thread that scans a folder alone, with `nIndex` at the number of rows: behind the rows that are
  -- there, it adds one for each file in the folder and below it, and each entry of the list of viruses
  -- that the file's MD5 is equal to, in the order in which the files are found, and `nIndex` is the
  -- number of rows again. Hidden files and folders and files of 2 GB or more are left out.
  pub enum_all_lem :
      (k : Disk) (known : List Text) (path : Text) (fd : Folder) (s : Shared v md5)
      (boxes : List Text)
      → s.n_index ≡ length (rows s.list)
      → let (s', boxes') = enum_all v md5 k known path fd (s, boxes) in
        (rows s'.list ≡ rows s.list ++ folder_rows (infected_rows known) path fd)
        × (s'.n_index ≡ length (rows s'.list))
  unfolding enum_all IsCounted listed_rows
  enum_all_lem k known path fd s boxes e =
      let (counted, done) =
        walk_folder-append (check_all v md5 k known) (show_error v md5) listed_rows
          (infected_rows known) IsCounted (check_all-appends k known) (λ text s' inv. (inv, refl))
          path fd (s, boxes) e in
      (done, counted)
