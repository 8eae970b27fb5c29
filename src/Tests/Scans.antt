-- ===== src/Tests/Scans.antt =====
-- The theorems on the scans at a small folder.
use mathlib.Core.List.{Permᴰ}
use process_manger_alpha.Base.{
  ℕ, ◌+◌, true, false, not, List, [], ◌∷◌, ◌++◌, ◌≡◌, refl, arith, map, keep, length, insert_at,
}
use process_manger_alpha.Text.{Text, codes, lower, format_byte, hex_text}
use process_manger_alpha.ListView.{row_of, blank, get_cell, is_marked}
use process_manger_alpha.ListView.Listed.{listed}
use process_manger_alpha.ListView.Rows.{insert_row}
use process_manger_alpha.Scan.{
  SystemTime, File, Folder, opened, refused, no_more, file_entry, folder_entry, join_path,
  walk_folder,
}
use process_manger_alpha.Scan.Walk.{folder_rows}
use process_manger_alpha.Scan.Files.{enum_files_by_dir, file_texts, enum_files_by_dir-Perm}
use process_manger_alpha.Scan.Cleaner.{
  Cleaner, scan, delete_chosen, read_postfixes, default_postfix, list_match,
}
use process_manger_alpha.Scan.Cleaner.Listing.{match_rows, scan-Perm, delete_chosen_lem}
use process_manger_alpha.Scan.Cleaner.Postfixes.{read_postfixes-written}
use process_manger_alpha.Scan.Viruses.{
  digest_text, list_by_path, check_by_path, enum_by_path, Op, detect, Shared, run, list_all, disk_c,
  disk_d,
}
use process_manger_alpha.Scan.Viruses.ByPath.{check_by_path_shown, check_by_path_lost}
use process_manger_alpha.Scan.Viruses.Placed.{file_hits, hit_row, Placed}
use process_manger_alpha.Scan.Viruses.WholeFolder.{enum_by_path-Placed, enum_by_path-Perm}
use process_manger_alpha.Scan.Viruses.Race.{
  both_in_turn, Interleaving, finished, left, right, inserts, run-Interleaving, list_all_lem,
  run-race,
}

abbrev pub no_time : SystemTime
no_time = record { year = 2020; month = 1; day = 2; hour = 3; minute = 4; second = 5 }

abbrev file_named : Text → File
file_named name = record {
  name = name;
  hidden = false;
  created = no_time;
  written = no_time;
  size = 3;
  get_file_size = 3;
  content = 1 ∷ 2 ∷ 3 ∷ [];
}

-- A folder with a file, a folder with a file, and another file.
abbrev pub folder : Folder
folder = opened (
    folder_entry (codes ".") false (refused 5) (
      file_entry (file_named (codes "a.obj")) (
        folder_entry (codes "sub") false (opened (file_entry (file_named (codes "b.obj")) no_more))
          (file_entry (file_named (codes "c.cpp")) no_more))))

abbrev pub cleaner : Cleaner listed
cleaner = record {
  proj_path = codes "C:\\p";
  proj_box = codes "C:\\p";
  postfix = default_postfix;
  postfix_box = codes ".obj\\.pdb\\x";
  postfixes = codes ".obj" ∷ [];
  list =
      record { cells = codes "old" ∷ codes "C:\\old" ∷ []; selected = true; checked = false }
      ∷ blank
      ∷ [];
  boxes = [];
  deleted = [];
}

scan-Perm_example :
    Permᴰ
      (scan listed folder cleaner).list
      (folder_rows (match_rows (codes ".obj" ∷ [])) (codes "C:\\p") folder)
scan-Perm_example = scan-Perm listed folder cleaner

-- The file of the inner folder stands in front: its call counts from 0.
scan_order :
    (scan listed folder cleaner).list
    ≡ row_of (codes "b.obj" ∷ codes "C:\\p\\sub\\b.obj" ∷ [])
      ∷ row_of (codes "a.obj" ∷ codes "C:\\p\\a.obj" ∷ [])
      ∷ []
unfolding scan walk_folder list_match insert_row
scan_order = refl

delete_chosen_lem_example :
    ((delete_chosen listed cleaner).list ≡ keep (λ r. not (is_marked r)) cleaner.list)
    × ((delete_chosen listed cleaner).deleted
        ≡ map (λ r. get_cell 1 r.cells) (keep is_marked cleaner.list) ++ [])
delete_chosen_lem_example = delete_chosen_lem listed cleaner

read_postfixes-written_example :
    ((read_postfixes listed cleaner).postfixes ≡ codes ".obj" ∷ codes ".pdb" ∷ [])
    × ((read_postfixes listed cleaner).postfix ≡ codes "x")
read_postfixes-written_example =
    read_postfixes-written listed cleaner (codes ".obj" ∷ codes ".pdb" ∷ []) (codes "x") refl
      ((refl, (refl, (refl, (refl, tt)))), ((refl, (refl, (refl, (refl, tt)))), tt)) (refl, tt)

files_listed :
    let (c', boxes') = enum_files_by_dir listed (codes "C:\\p") folder ([], []) in
    Permᴰ c' ([] ++ folder_rows (λ path f. row_of (file_texts f) ∷ []) (codes "C:\\p") folder)
files_listed = enum_files_by_dir-Perm listed (codes "C:\\p") folder [] []

-- A stand-in for MD5.
abbrev sum : List ℕ → List ℕ
sum xs = 171 ∷ length xs ∷ []

abbrev text_of_abc : Text
text_of_abc = codes "ab030000000000000000000000000000"

check_by_path_shown_applied :
    let (i', (c', boxes')) =
      check_by_path listed sum
        (text_of_abc ∷ codes "00" ∷ [])
        (codes "C:")
        (file_named (codes "v"))
        0
        ([], []) in
    c'
    ≡ insert_at 0
        (row_of
          (join_path (codes "C:") (codes "v") ∷ digest_text lower (sum (1 ∷ 2 ∷ 3 ∷ [])) ∷ []))
        []
unfolding digest_text hex_text format_byte
check_by_path_shown_applied =
    check_by_path_shown listed sum [] (codes "00" ∷ []) text_of_abc (codes "C:")
      (file_named (codes "v")) 0 [] [] (omega arith) tt refl (refl, tt) (omega arith)

check_by_path_lost_applied :
    let (i', (c', boxes')) =
      check_by_path listed sum
        (codes "00" ∷ text_of_abc ∷ [])
        (codes "C:")
        (file_named (codes "v"))
        0
        ([], []) in
    c' ≡ [] ++ blank ∷ []
unfolding digest_text hex_text format_byte
check_by_path_lost_applied =
    check_by_path_lost listed sum (codes "00" ∷ []) [] text_of_abc (codes "C:")
      (file_named (codes "v")) 0 [] [] (omega arith) (refl, tt) refl tt (omega arith)

-- The virus that every file of the folder is, behind another entry.
abbrev second_entry : List Text
second_entry = codes "00" ∷ text_of_abc ∷ []

-- The first file is lost, and its blank row makes the place for the others.
folder_scanned :
    (enum_by_path listed sum second_entry (codes "C:") folder ([], [])).0
    ≡ blank
      ∷ row_of (codes "C:\\c.cpp" ∷ text_of_abc ∷ [])
      ∷ row_of (codes "C:\\sub\\b.obj" ∷ text_of_abc ∷ [])
      ∷ []
unfolding enum_by_path walk_folder check_by_path list_by_path insert_row digest_text hex_text
    format_byte
folder_scanned = refl

enum_by_path-Placed_example :
    let (c', boxes') = enum_by_path listed sum second_entry (codes "C:") folder ([], []) in
    Placed (folder_rows (file_hits sum second_entry) (codes "C:") folder) 0 [] c'
enum_by_path-Placed_example = enum_by_path-Placed listed sum second_entry (codes "C:") folder [] []

enum_by_path-Perm_example :
    let (c', boxes') = enum_by_path listed sum (text_of_abc ∷ []) (codes "C:") folder ([], []) in
    Permᴰ c'
      ([] ++ map hit_row (folder_rows (file_hits sum (text_of_abc ∷ [])) (codes "C:") folder))
enum_by_path-Perm_example =
    enum_by_path-Perm listed sum (text_of_abc ∷ []) (codes "C:") folder [] [] (omega arith)

abbrev nothing_found : Shared listed sum
nothing_found = record { n_index = 0; list = []; held = λ k. 0 }

list_all_lem_applied :
    let s' =
      list_all listed sum disk_c
        (codes "00" ∷ codes "01" ∷ codes "00" ∷ [])
        (codes "C:\\v")
        (codes "00")
        nothing_found in
    (s'.list
      ≡ []
        ++ map (λ entry. row_of (codes "C:\\v" ∷ codes "00" ∷ [])) (codes "00" ∷ codes "00" ∷ []))
    × (s'.n_index ≡ length s'.list)
list_all_lem_applied =
    list_all_lem listed sum disk_c (codes "00" ∷ codes "01" ∷ codes "00" ∷ []) (codes "C:\\v")
      (codes "00") nothing_found refl

found_together :
    length
      (run listed sum
        (both_in_turn (codes "a") (codes "b") (codes "00") (codes "01"))
        nothing_found).list
    ≡ 0
      + (inserts (detect disk_c (codes "a") (codes "00"))
          + inserts (detect disk_d (codes "b") (codes "01")))
found_together = run-Interleaving listed sum nothing_found (
    left (
      right (
        left (
          right (
            left (
              right (
                left (
                  right (left (right (left (right (left (right (left (right finished))))))))))))))))

run-race_example :
    (ops : List Op) × Interleaving
      (detect disk_c (codes "a") (codes "00"))
      (detect disk_d (codes "b") (codes "01"))
      ops
    × ((run listed sum ops nothing_found).list
        ≡ [] ++ row_of (codes "b" ∷ codes "01" ∷ []) ∷ blank ∷ [])
    × ((run listed sum ops nothing_found).n_index ≡ 1)
run-race_example =
    run-race listed sum (codes "a") (codes "b") (codes "00") (codes "01") nothing_found refl
