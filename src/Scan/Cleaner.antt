-- ===== src/Scan/Cleaner.antt =====
-- The dialog that looks for the files of a build and deletes them:
-- ProcessMangerAlpha/CVSCleanerDialog.cpp.
pub mod Postfixes
pub mod Listing
use process_manger_alpha.Base.{
  ℕ, zero, suc, ◌+◌, Bool, true, false, ◌&&◌, ◌||◌, ◌==◌, if◌then◌else◌, Option, none, some, List,
  [], ◌∷◌, ◌++◌, length, take, drop,
}
use process_manger_alpha.Text.{Text, codes}
use process_manger_alpha.ListView.{ListView}
use process_manger_alpha.ListView.Rows.{insert_row}
use process_manger_alpha.Scan.{File, Folder, join_path, walk_folder}
use process_manger_alpha.Scan.Deleting.{delete_marked}

abbrev pub default_postfix : Text
default_postfix =
    codes ".obj\\.tlog\\.lastbuildstate\\.idb\\.pdb\\.pch\\.res\\.ilk\\.exe\\.sdf\\.ipch\\"

-- `strPostfix.Find(_T("\\"))`
abbrev pub find_backslash : Text → Option ℕ
find_backslash [] = none
find_backslash (c ∷ s) =
    if c == b'\\' then some 0 else elim (find_backslash s) [ none ↦ none | some i ↦ some (suc i) ]

-- The loop of `OnBnClickedButton6`, on `postfixVt` and `strPostfix`. A round takes away one character
-- at least, so the length of the text is enough fuel.
unfoldable pub read_rounds : ℕ → List Text → Text → List Text × Text
read_rounds zero found s = (found, s)
read_rounds (suc fuel) found s = elim (find_backslash s) [
  | none ↦ (found, s)
  | some i ↦ read_rounds fuel (found ++ take i s ∷ []) (drop (suc i) s)
]

-- `s.Find(p) != -1`
abbrev pub starts_with : Text → Text → Bool
starts_with p [] = elim p [ [] ↦ true | x ∷ xs ↦ false ]
starts_with [] (c ∷ s) = true
starts_with (x ∷ p) (c ∷ s) = x == c && starts_with p s

abbrev pub contains : Text → Text → Bool
contains [] p = starts_with p []
contains (c ∷ s) p = starts_with p (c ∷ s) || contains s p

-- The loop over `postfixVt`, which ends at the first that the name contains.
abbrev pub matches : List Text → Text → Bool
matches [] name = false
matches (p ∷ ps) name = contains name p || matches ps name

module _ (v : ListView) where
  open v use {Ctrl, delete_all_items}

  pub record Cleaner : Type 0 where
    -- strProjPath and strPostfix, and the texts of the edit boxes that UpdateData exchanges them with
    pub proj_path : Text
    pub proj_box : Text
    pub postfix : Text
    pub postfix_box : Text
    pub postfixes : List Text
    pub list : Ctrl
    -- what MessageBox has shown, and what DeleteFile was called for, the latest first
    pub boxes : List Text
    pub deleted : List Text

  -- UpdateData(FALSE)
  abbrev pub show_members : Cleaner → Cleaner
  show_members d = record d { proj_box = d.proj_path; postfix_box = d.postfix }

  -- OnBnClickedButton1, with the folder that the user picks
  unfoldable pub choose_folder : Text → Cleaner → Cleaner
  choose_folder path d = show_members (record d { proj_path = path })

  -- OnInitDialog and OnBnClickedButton2
  unfoldable pub restore_default : Cleaner → Cleaner
  restore_default d = show_members (record d { postfix = default_postfix })

  -- OnBnClickedButton6, which begins with UpdateData(TRUE)
  unfoldable pub read_postfixes : Cleaner → Cleaner
  read_postfixes d =
      let (found, rest) = read_rounds (length d.postfix_box) [] d.postfix_box in
      record d { proj_path = d.proj_box; postfix = rest; postfixes = found }

  -- What `enumFilesPostfix` does for a file, on the list and the messages.
  unfoldable pub list_match :
      List Text → Text → File → ℕ → Ctrl × List Text → ℕ × (Ctrl × List Text)
  list_match postfixes path f i (c, boxes) =
      if matches postfixes f.name
      then (suc i, (insert_row v i (f.name ∷ join_path path f.name ∷ []) c, boxes))
      else (i, (c, boxes))

  abbrev pub show_error : Text → Ctrl × List Text → Ctrl × List Text
  show_error text (c, boxes) = (c, text ∷ boxes)

  unfoldable pub enum_files_postfix :
      List Text → Text → Folder → Ctrl × List Text → Ctrl × List Text
  enum_files_postfix postfixes path fd s = walk_folder (list_match postfixes) show_error path fd s

  -- OnBnClickedButton3, where `fd` is what is found at `strProjPath`
  unfoldable pub scan : Folder → Cleaner → Cleaner
  unfolding enum_files_postfix
  scan fd d =
      let (c, boxes) =
        enum_files_postfix d.postfixes d.proj_path fd (delete_all_items d.list, d.boxes) in
      record d { list = c; boxes = boxes }

  -- OnBnClickedButton4
  unfoldable pub delete_chosen : Cleaner → Cleaner
  delete_chosen d =
      let (c, deleted) = delete_marked v 1 d.list in
      record d { list = c; deleted = deleted ++ d.deleted }
