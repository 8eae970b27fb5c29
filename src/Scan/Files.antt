-- ===== src/Scan/Files.antt =====
-- The dialog that lists the files below a folder: ProcessMangerAlpha/CFilesDialog.cpp.
pub mod Icons
use mathlib.Core.List.{Permᴰ}
use process_manger_alpha.Base.{
  ℕ, zero, suc, ◌≤◌, ◌%◌, List, [], ◌∷◌, ◌++◌, refl, sym, ap, subst, arith, length,
  length-insert_at,
}
use process_manger_alpha.Text.{Text, codes, format_decimal, dword_mod}
use process_manger_alpha.ListView.{Row, ListView, row_of}
use process_manger_alpha.ListView.Rows.{insert_row, rows-insert_row}
use process_manger_alpha.Scan.{File, Folder, SystemTime, walk_folder}
use process_manger_alpha.Scan.Walk.{folder_rows, walk_folder-Perm, insert_at-Perm}

-- `%d-%d-%d  %d:%d:%d`
abbrev pub time_text : SystemTime → Text
time_text t =
    format_decimal t.year
    ++ b'-' ∷ format_decimal t.month
    ++ b'-' ∷ format_decimal t.day
    ++ b' ' ∷ b' ' ∷ format_decimal t.hour
    ++ b':' ∷ format_decimal t.minute
    ++ b':' ∷ format_decimal t.second

-- The texts of a file's row. `%d` reads the low 32 bits of the size alone, as a signed number.
abbrev pub file_texts : File → List Text
file_texts f =
    f.name
    ∷ time_text f.created
    ∷ time_text f.written
    ∷ (format_decimal (f.size % dword_mod) ++ codes " 字节")
    ∷ []

module _ (v : ListView) where
  open v use {Ctrl, rows, get_item_text, get_item_count}

  -- What `enumFilesByDir` does for a file, on the list and the messages.
  unfoldable pub list_file : Text → File → ℕ → Ctrl × List Text → ℕ × (Ctrl × List Text)
  list_file path f i (c, boxes) = (suc i, (insert_row v i (file_texts f) c, boxes))

  abbrev pub show_error : Text → Ctrl × List Text → Ctrl × List Text
  show_error text (c, boxes) = (c, text ∷ boxes)

  unfoldable pub enum_files_by_dir : Text → Folder → Ctrl × List Text → Ctrl × List Text
  unfolding list_file
  enum_files_by_dir path fd s = walk_folder list_file show_error path fd s

  -- The loop over the rows left: an icon for the name in each row. What SHGetFileInfo answers for a
  -- name, or by its type when there is no such file, is a parameter.
  unfoldable pub row_icons {ℓ} : {Icon : Type ℓ} → (Text → Icon) → ℕ → ℕ → Ctrl → List Icon
  row_icons icon_of zero i c = []
  row_icons icon_of (suc left) i c =
      icon_of (get_item_text i 0 c) ∷ row_icons icon_of left (suc i) c

  -- findFilesProc: the list, the messages, and the image list, in which the row `i` has the image `i`.
  -- Every call of enumFilesByDir makes a new image list at its end, and the outermost one ends last.
  unfoldable pub find_files_proc {ℓ} :
      {Icon : Type ℓ}
      → (Text → Icon)
      → Text
      → Folder
      → Ctrl × List Text
      → (Ctrl × List Text) × List Icon
  unfolding enum_files_by_dir row_icons
  find_files_proc icon_of path fd s =
      let (c, boxes) = enum_files_by_dir path fd s in
      ((c, boxes), row_icons icon_of (get_item_count c) 0 c)

  listed_rows : Ctrl × List Text → List Row
  listed_rows (c, boxes) = rows c

  list_file-adds :
      (path : Text) (f : File) (i : ℕ) (s : Ctrl × List Text)
      → i ≤ length (listed_rows s)
      → let (i', s') = list_file path f i s in
        (i' ≤ length (listed_rows s'))
        × Permᴰ (listed_rows s') (listed_rows s ++ row_of (file_texts f) ∷ [])
  unfolding list_file listed_rows
  list_file-adds path f i (c, boxes) h =
      let put = rows-insert_row v i (file_texts f) c h in
      (
        omega (arith, ap length put, length-insert_at i (row_of (file_texts f)) (rows c)),
        subst (λ xs. Permᴰ xs (rows c ++ row_of (file_texts f) ∷ [])) (sym put)
            (insert_at-Perm i (row_of (file_texts f)) (rows c)),
      )

  -- The list gets one row for each file below the folder, with its name, times and size, hidden files
  -- and folders left out, besides the rows that it had.
  pub enum_files_by_dir-Perm :
      (path : Text) (fd : Folder) (c : Ctrl) (boxes : List Text)
      → let (c', boxes') = enum_files_by_dir path fd (c, boxes) in
        Permᴰ (rows c') (rows c ++ folder_rows (λ path f. row_of (file_texts f) ∷ []) path fd)
  unfolding enum_files_by_dir listed_rows
  enum_files_by_dir-Perm path fd c boxes =
      walk_folder-Perm list_file show_error listed_rows (λ path f. row_of (file_texts f) ∷ [])
        list_file-adds (λ text s. refl) path fd (c, boxes)
