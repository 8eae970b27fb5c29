-- ===== src/Scan.antt =====
-- The three dialogs that walk through a folder with FindFirstFile and FindNextFile: the cleaner
-- (ProcessMangerAlpha/CVSCleanerDialog.cpp), the file list (CFilesDialog.cpp) and the virus scans
-- (CByPathKillingDialog.cpp, CAllKillingDialog.cpp). Their loops differ only in what is done for a
-- file, so the walk is written once.
pub mod Walk
pub mod Ordered
pub mod Collected
pub mod Deleting
pub mod Cleaner
pub mod Files
pub mod Viruses
use process_manger_alpha.Base.{
  ℕ, zero, suc, Bool, true, false, ◌||◌, if◌then◌else◌, List, [], ◌∷◌, ◌++◌, list_eq,
}
use process_manger_alpha.Text.{Text, codes, format_decimal}

-- `SYSTEMTIME`, to which the system converts the times of a file.
pub record SystemTime : Type 0 where
  pub year : ℕ
  pub month : ℕ
  pub day : ℕ
  pub hour : ℕ
  pub minute : ℕ
  pub second : ℕ

-- What the system says of a file: its name, whether it has FILE_ATTRIBUTE_HIDDEN, its times, its
-- 64-bit size, the DWORD of GetFileSize (-1 when the file cannot be opened), and what ReadFile reads.
pub record File : Type 0 where
  pub name : Text
  pub hidden : Bool
  pub created : SystemTime
  pub written : SystemTime
  pub size : ℕ
  pub get_file_size : ℕ
  pub content : List ℕ

-- A folder as the walk finds it: FindFirstFile fails with an error code, or the entries come one
-- after another, those with FILE_ATTRIBUTE_DIRECTORY with the folder they lead to. The entries "."
-- and ".." are among them; where they lead does not matter.
mutual
  pub data Folder : Type 0 where
    refused : ℕ → Folder
    opened : Entries → Folder

  pub data Entries : Type 0 where
    no_more : Entries
    file_entry : File → Entries → Entries
    folder_entry : Text → Bool → Folder → Entries → Entries

-- The two `continue`s: the folder itself and the one above it, and what is hidden.
abbrev pub is_skipped : Text → Bool → Bool
is_skipped name hidden = list_eq name (codes ".") || list_eq name (codes "..") || hidden

-- `szPath + _T("\\") + fd.cFileName`
abbrev pub join_path : Text → Text → Text
join_path path name = path ++ b'\\' ∷ name

-- The walk, for what a dialog does for a file: `visit path f i s` is that for the file `f` of the
-- folder `path`, where `i` is the local counter of the function, and `warn` shows a message.
module _ {S : Type 0} (visit : Text → File → ℕ → S → ℕ × S) (warn : Text → S → S) where
  unfoldable mutual
    pub walk_folder : Text → Folder → S → S
    walk_folder path (refused code) s = warn (codes "错误: " ++ format_decimal code) s
    walk_folder path (opened es) s = walk_entries path es 0 s

    pub walk_entries : Text → Entries → ℕ → S → S
    walk_entries path no_more i s = s
    walk_entries path (file_entry f es) i s =
        let (i', s') = if is_skipped f.name f.hidden then (i, s) else visit path f i s in
        walk_entries path es i' s'
    walk_entries path (folder_entry name hidden sub es) i s =
        let inside = walk_folder (join_path path name) sub s in
        walk_entries path es i (if is_skipped name hidden then s else inside)
