-- ===== src/Scan/Viruses/WholeFolder.antt =====
-- The scan of a folder as a whole: enumFilesByDir of ProcessMangerAlpha/CByPathKillingDialog.cpp.
use mathlib.Core.List.{Permᴰ}
use process_manger_alpha.Base.{
  ℕ, suc, ◌≤◌, ◌^◌, All-append, Bool-cases, inl, inr, List, [], ◌∷◌, ◌++◌, ◌≡◌, refl, sym, subst,
  arith, leb, list_eq, length, map, All,
}
use process_manger_alpha.Text.{Text}
use process_manger_alpha.ListView.{ListView}
use process_manger_alpha.ListView.Rows.{insert_row}
use process_manger_alpha.Scan.{Folder}
use process_manger_alpha.Scan.Walk.{folder_rows}
use process_manger_alpha.Scan.Collected.{walk_folder-does, folder_rows-all}
use process_manger_alpha.Scan.Viruses.{list_by_path, check_by_path, enum_by_path, show_error}
use process_manger_alpha.Scan.Viruses.Placed.{
  hits, file_hits, hit_row, Placed, place, hits-All, Placed-Perm, place-append, place-Placed,
}

module _ (v : ListView) where
  open v use {Ctrl, rows}

  module _ (md5 : List ℕ → List ℕ) where
    list_by_path-place :
        (known : List Text) (index : ℕ) (path text : Text) (c : Ctrl)
        → list_by_path v md5 known index path text c ≡ place v (hits known index path text) c
    unfolding list_by_path
    list_by_path-place [] index path text c = refl
    list_by_path-place (entry ∷ known) index path text c = elim (Bool-cases (list_eq text entry)) [
      | inl same ↦
          rw (list_by_path, same)
            (list_by_path-place known (suc index) path text
              (insert_row v index (path ∷ text ∷ []) c))
      | inr other ↦ rw (list_by_path, other) (list_by_path-place known (suc index) path text c)
    ]

    enum_by_path-place :
        (known : List Text) (path : Text) (fd : Folder) (c : Ctrl) (boxes : List Text)
        → (enum_by_path v md5 known path fd (c, boxes)).0
          ≡ place v (folder_rows (file_hits md5 known) path fd) c
    unfolding enum_by_path
    enum_by_path-place known path fd c boxes =
        walk_folder-does (check_by_path v md5 known) (show_error v md5) (λ st. st.0) (place v)
          (λ t. refl) (place-append v) (file_hits md5 known)
          (λ path' f i (t, seen).
            unfold check_by_path in
            elim (Bool-cases (leb (2 ^ 31) f.get_file_size)) [
              | inl large ↦ rw large refl
              | inr small ↦ rw small (list_by_path-place known 0 _ _ t)
            ])
          (λ text st. refl) path fd (c, boxes)

    -- The scan of a folder, hidden files and those of 2 GB or more left out, takes each entry of the
    -- list of viruses that a file's MD5 is equal to: behind the rows that are there, in some order,
    -- comes a row with the file's path and MD5, or else, and only where the entry's number is beyond the
    -- number of rows at the start, a blank row.
    pub enum_by_path-Placed :
        (known : List Text) (path : Text) (fd : Folder) (c : Ctrl) (boxes : List Text)
        → let (c', boxes') = enum_by_path v md5 known path fd (c, boxes) in
          Placed (folder_rows (file_hits md5 known) path fd) (length (rows c)) (rows c) (rows c')
    enum_by_path-Placed known path fd c boxes =
        let found = folder_rows (file_hits md5 known) path fd in
        subst (λ c'. Placed found (length (rows c)) (rows c) (rows c'))
          (sym (enum_by_path-place known path fd c boxes)) (place-Placed v found c)

    -- With at most one entry more in the list of viruses than rows at the start, the scan of a folder
    -- adds, for each file in the folder and below it, hidden ones and those of 2 GB or more left out,
    -- and each entry that the file's MD5 is equal to, a row with the file's path and MD5, and nothing
    -- else. In which order the rows stand is left open.
    pub enum_by_path-Perm :
        (known : List Text) (path : Text) (fd : Folder) (c : Ctrl) (boxes : List Text)
        → length known ≤ suc (length (rows c))
        → let (c', boxes') = enum_by_path v md5 known path fd (c, boxes) in
          Permᴰ (rows c') (rows c ++ map hit_row (folder_rows (file_hits md5 known) path fd))
    enum_by_path-Perm known path fd c boxes few =
        let n = length (rows c) in
        Placed-Perm (folder_rows (file_hits md5 known) path fd) n (rows c) _
          (folder_rows-all (file_hits md5 known) (All (λ h. h.index ≤ n)) tt
            (All-append (λ h. h.index ≤ n))
            (λ path' f. elim (Bool-cases (leb (2 ^ 31) f.get_file_size)) [
              | inl large ↦ rw large tt
              | inr small ↦ rw small (hits-All known 0 n _ _ (omega arith))
            ])
            path fd)
          (enum_by_path-Placed known path fd c boxes)
