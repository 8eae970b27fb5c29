-- ===== src/Tests/Threads.antt =====
-- The threads of the scan of all disks, and the lists that a thread fills, on concrete inputs.
use process_manger_alpha.Base.{
  ◌+◌, ◌-◌, min, ◌≤◌, ◌≡◌, ◌⊎◌, inl, inr, refl, arith, List, [], ◌∷◌, length, take, drop, All,
}
use process_manger_alpha.Text.{Text, codes, hex_text, format_byte}
use process_manger_alpha.ListView.{row_of}
use process_manger_alpha.ListView.Listed.{listed}
use process_manger_alpha.Scan.{Folder, opened, refused, no_more, file_entry}
use process_manger_alpha.Scan.Walk.{folder_rows}
use process_manger_alpha.Scan.Viruses.{
  Disk, disk_c, disk_d, disk_f, Op, read_index, insert, detect, digest_text, run, enum_all,
}
use process_manger_alpha.Scan.Viruses.Race.{inserts, both_in_turn}
use process_manger_alpha.Scan.Viruses.Alone.{infected_rows}
use process_manger_alpha.Scan.Viruses.Threads.{
  find_steps, file_steps, disk_steps, stop, first, second, ScanRun, root,
}
use process_manger_alpha.Scan.Viruses.Schedules.{start, ScanRun-bounded, ScanRun-complete}
use process_manger_alpha.Scan.Viruses.Paths.{ShowsPath, ScanRun-ShowsPath}
use process_manger_alpha.Scan.Viruses.Reopened.{on_init_dialog, blank_rows, enum_all-on_init_dialog}
use process_manger_alpha.Tests.Windows.{file_of, itself, virus_text}

abbrev pub infected : Folder
infected = opened (file_entry (file_of (codes "v") (0xab ∷ [])) no_more)

abbrev disks : Disk → Folder
disks disk_c = infected
disks disk_d = infected
disks disk_f = refused 21

-- Both threads at their virus, one step each in turn.
abbrev mixed : List Op
mixed = both_in_turn (codes "C:\\v") (codes "D:\\v") virus_text virus_text

all_run : ScanRun itself (virus_text ∷ []) disks [] [] [] mixed
unfolding disk_steps file_steps find_steps folder_rows digest_text hex_text format_byte
all_run = first (
    second (
      first (
        second (
          first (
            second (
              first (
                second
                  (first (second (first (second (first (second (first (second stop)))))))))))))))

-- The first thread is stopped between its row and its path, the second before its `nIndex++`.
abbrev closing : List Op
closing = read_index disk_c ∷ insert disk_c ∷ take 6 (detect disk_d (codes "D:\\v") virus_text)

closed_run :
    ScanRun itself
      (virus_text ∷ [])
      disks
      (drop 2 (detect disk_c (codes "C:\\v") virus_text))
      (drop 6 (detect disk_d (codes "D:\\v") virus_text))
      []
      closing
unfolding disk_steps file_steps find_steps folder_rows digest_text hex_text format_byte
closed_run = first (first (second (second (second (second (second (second stop)))))))

ScanRun-complete_example :
    let s' = run listed itself mixed (start listed itself []) in
    let found = λ (d : Disk).
      length (folder_rows (infected_rows listed itself (virus_text ∷ [])) (root d) (disks d)) in
    let new = found disk_c + found disk_d + found disk_f in
    (length s'.list ≡ 0 + new) × (0 + min 1 new ≤ s'.n_index) × (s'.n_index ≤ length s'.list)
ScanRun-complete_example = ScanRun-complete listed itself (virus_text ∷ []) disks mixed [] all_run

ScanRun-bounded_example :
    let s' = run listed itself closing (start listed itself []) in
    (length s'.list ≡ 0 + inserts closing)
    × (0 + min 1 (inserts closing - 3) ≤ s'.n_index)
    × (s'.n_index ≤ length s'.list)
ScanRun-bounded_example =
    ScanRun-bounded listed itself (virus_text ∷ []) disks
      (drop 2 (detect disk_c (codes "C:\\v") virus_text))
      (drop 6 (detect disk_d (codes "D:\\v") virus_text)) [] closing [] closed_run

-- Blank, or one of the two files.
abbrev IsFile : Text → Type 0
IsFile path = (path ≡ []) ⊎ ((path ≡ codes "C:\\v") ⊎ (path ≡ codes "D:\\v"))

infected-IsFile :
    (d : Disk)
    → All
        (ShowsPath IsFile)
        (folder_rows (infected_rows listed itself (virus_text ∷ [])) (root d) (disks d))
unfolding folder_rows digest_text hex_text format_byte
infected-IsFile disk_c = (inr (inl refl), tt)
infected-IsFile disk_d = (inr (inr refl), tt)
infected-IsFile disk_f = tt

ScanRun-ShowsPath_example :
    All (ShowsPath IsFile) (run listed itself mixed (start listed itself [])).list
ScanRun-ShowsPath_example =
    ScanRun-ShowsPath IsFile listed itself (virus_text ∷ []) disks [] [] [] mixed
      (start listed itself []) (inl refl) infected-IsFile tt all_run

enum_all-on_init_dialog_example :
    let (known', s') = on_init_dialog listed itself (virus_text ∷ []) [] (
      virus_text ∷ [],
      record { n_index = 1; list = row_of (codes "C:\\v" ∷ virus_text ∷ []) ∷ []; held = λ k. 0 },
    ) in
    (enum_all listed itself disk_c known' (codes "C:") infected (s', [])).0.list
    ≡ folder_rows (blank_rows listed itself known') (codes "C:") infected
enum_all-on_init_dialog_example =
    enum_all-on_init_dialog listed itself disk_c (virus_text ∷ []) (virus_text ∷ []) []
      (record { n_index = 1; list = row_of (codes "C:\\v" ∷ virus_text ∷ []) ∷ []; held = λ k. 0 })
      (codes "C:") infected refl (omega arith)
