-- ===== src/Scan/Viruses.antt =====
-- The virus scans, which compare the MD5 of every file with a list of known ones:
-- ProcessMangerAlpha/CByPathKillingDialog.cpp (the files below a folder) and CAllKillingDialog.cpp
-- (three disks, a thread for each). MD5 is OpenSSL's, a parameter here.
pub mod ByPath
pub mod Race
pub mod Loading
pub mod Alone
pub mod Threads
pub mod Schedules
pub mod Paths
pub mod Reopened
pub mod Stopped
pub mod Placed
pub mod WholeFolder
use process_manger_alpha.Base.{
  ℕ, zero, suc, ◌+◌, ◌^◌, Bool, true, false, leb, if◌then◌else◌, List, [], ◌∷◌, ◌++◌, map, take,
  replicate, list_eq,
}
use process_manger_alpha.Text.{Text, Case, upper, lower, hex_text}
use process_manger_alpha.ListView.{ListView}
use process_manger_alpha.ListView.Rows.{insert_row}
use process_manger_alpha.Scan.{File, Folder, join_path, walk_folder}
use process_manger_alpha.Scan.Deleting.{delete_marked}

-- `localbyVirusVt` and `localVirusVt`: the entries of the file TheVirus.txt go behind those that are
-- there from an earlier opening of the dialog.
abbrev pub load_database : List Text → List Text → List Text
load_database entries known = known ++ entries

-- Two digits for each of the first 16 bytes of an array of 100, which was zero before MD5 was
-- written to it.
unfoldable pub digest_text : Case → List ℕ → Text
unfolding hex_text
digest_text k digest = hex_text k (take 16 (digest ++ replicate 100 0))

-- The disks that CAllKillingDialog scans, each with a thread of its own.
pub data Disk : Type 0 where
  disk_c disk_d disk_f : Disk

-- What the thread of a disk does for a file that it finds in the list, on the shared list and the
-- shared `nIndex`: each call on the list reads `nIndex` first and then passes on what it has read,
-- and `nIndex++` reads it and writes back one more. `g_hEvent` is NULL, so waiting for it does not
-- keep the others out, and theirs may come between a reading and the call or writing that follows.
pub data Op : Type 0 where
  read_index insert write_index : Disk → Op
  set_path set_md5 : Disk → Text → Op

abbrev pub detect : Disk → Text → Text → List Op
detect k path md5 =
    read_index k
    ∷ insert k
    ∷ read_index k
    ∷ set_path k path
    ∷ read_index k
    ∷ set_md5 k md5
    ∷ read_index k
    ∷ write_index k
    ∷ []

-- What the threads have read, once the one of the disk `k` has read `n`.
abbrev pub hold : Disk → ℕ → (Disk → ℕ) → Disk → ℕ
hold disk_c n held disk_c = n
hold disk_c n held disk_d = held disk_d
hold disk_c n held disk_f = held disk_f
hold disk_d n held disk_c = held disk_c
hold disk_d n held disk_d = n
hold disk_d n held disk_f = held disk_f
hold disk_f n held disk_c = held disk_c
hold disk_f n held disk_d = held disk_d
hold disk_f n held disk_f = n

module _ (v : ListView) (md5 : List ℕ → List ℕ) where
  open v use {Ctrl, insert_item, set_item_text}

  -- The comparison of CByPathKillingDialog, with the entries from `index` on.
  unfoldable pub list_by_path : List Text → ℕ → Text → Text → Ctrl → Ctrl
  list_by_path [] index path text c = c
  list_by_path (entry ∷ known) index path text c =
      let c' = if list_eq text entry then insert_row v index (path ∷ text ∷ []) c else c in
      list_by_path known (suc index) path text c'

  -- What CByPathKillingDialog::enumFilesByDir does for a file; one of 2 GB or more, or one that
  -- cannot be opened, is passed over.
  unfoldable pub check_by_path :
      List Text → Text → File → ℕ → Ctrl × List Text → ℕ × (Ctrl × List Text)
  unfolding list_by_path digest_text
  check_by_path known path f i (c, boxes) =
      let text = digest_text lower (md5 f.content) in
      (
        i,
        if leb (2 ^ 31) f.get_file_size
            then (c, boxes)
            else (list_by_path known 0 (join_path path f.name) text c, boxes),
      )

  abbrev pub show_error : {S : Type 0} → Text → S × List Text → S × List Text
  show_error text (c, boxes) = (c, text ∷ boxes)

  unfoldable pub enum_by_path : List Text → Text → Folder → Ctrl × List Text → Ctrl × List Text
  unfolding check_by_path
  enum_by_path known path fd s = walk_folder (check_by_path known) show_error path fd s

  -- OnBnClickedButton1: the list afterwards, and the paths that were deleted.
  unfoldable pub delete_chosen : Ctrl → Ctrl × List Text
  delete_chosen c = delete_marked v 0 c

  pub record Shared : Type 0 where
    pub n_index : ℕ
    pub list : Ctrl
    -- what each thread has last read of `nIndex`
    pub held : Disk → ℕ

  abbrev pub run_op : Op → Shared → Shared
  run_op (read_index k) s = record s { held = hold k s.n_index s.held }
  run_op (insert k) s = record s { list = insert_item (s.held k) s.list }
  run_op (set_path k path) s = record s { list = set_item_text (s.held k) 0 path s.list }
  run_op (set_md5 k text) s = record s { list = set_item_text (s.held k) 1 text s.list }
  run_op (write_index k) s = record s { n_index = suc (s.held k) }

  unfoldable pub run : List Op → Shared → Shared
  run [] s = s
  run (op ∷ ops) s = run ops (run_op op s)

  -- The comparison of CAllKillingDialog, in the thread of the disk `k`.
  unfoldable pub list_all : Disk → List Text → Text → Text → Shared → Shared
  unfolding run
  list_all k [] path text s = s
  list_all k (entry ∷ known) path text s =
      list_all k known path text (if list_eq text entry then run (detect k path text) s else s)

  -- What CAllKillingDialog::enumFilesByDir does for a file, in a thread that runs alone.
  unfoldable pub check_all :
      Disk → List Text → Text → File → ℕ → Shared × List Text → ℕ × (Shared × List Text)
  unfolding list_all digest_text
  check_all k known path f i (s, boxes) =
      let text = digest_text upper (md5 f.content) in
      (
        i,
        if leb (2 ^ 31) f.get_file_size
            then (s, boxes)
            else (list_all k known (join_path path f.name) text s, boxes),
      )

  unfoldable pub enum_all :
      Disk → List Text → Text → Folder → Shared × List Text → Shared × List Text
  unfolding check_all
  enum_all k known path fd s = walk_folder (check_all k known) show_error path fd s
