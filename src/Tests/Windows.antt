-- ===== src/Tests/Windows.antt =====
-- The main window on concrete inputs: paths, hot key, menu, memory and status bar; and the scan of a
-- disk.
use process_manger_alpha.Base.{
  ℕ, ◌≡◌, ◌⊎◌, refl, true, false, Option, none, some, List, [], ◌∷◌, inl, inr, length,
  if◌then◌else◌, ◌==◌, ◌*◌,
}
use process_manger_alpha.Text.{Text, codes, hex_text, format_byte, format_hex}
use process_manger_alpha.ListView.{row_of}
use process_manger_alpha.ListView.Listed.{listed}
use process_manger_alpha.Tasks.Paths.{
  get_proc_full_path, get_proc_full_path_found, get_proc_full_path_missing, same_folded,
  begins_with,
}
use process_manger_alpha.Tasks.Window.{
  Msg, pre_translate_all, pre_translate_all_lem, do_clean_memory, do_clean_memory_lem,
  on_command_range_mmenu, on_command_range_mmenu-Exits, Exits,
}
use process_manger_alpha.Tasks.StatusBar.{
  SystemTimes, Answers, StatusBar, memory_text, on_timers, on_timers_lem,
}
use process_manger_alpha.Scan.{File, Folder, opened, no_more, file_entry, folder_entry}
use process_manger_alpha.Scan.Viruses.{disk_c, digest_text, enum_all}
use process_manger_alpha.Scan.Viruses.Alone.{enum_all_lem}
use process_manger_alpha.Scan.Walk.{folder_rows}
use process_manger_alpha.Tests.Scans.{no_time}

-- Two volumes, the second with a number that begins with that of the first.
abbrev devices : Text → Option Text
devices [] = none
devices (c ∷ _) =
    if c == b'C'
    then some (codes "\\Device\\HarddiskVolume1")
    else if c == b'D'
    then some (codes "\\Device\\HarddiskVolume12")
    else none

abbrev drives : List Text
drives = codes "A:\\" ∷ codes "C:\\" ∷ codes "D:\\" ∷ []

-- A path of the volume 12 is shown as one of the drive C.
get_proc_full_path_found_applied :
    get_proc_full_path (some drives) devices (some (codes "\\Device\\HarddiskVolume12\\a.exe"))
    ≡ codes "C:2\\a.exe"
unfolding same_folded
get_proc_full_path_found_applied =
    get_proc_full_path_found devices (codes "A:\\" ∷ []) (codes "D:\\" ∷ []) (codes "C:\\")
      (codes "\\Device\\HarddiskVolume1") (codes "2\\a.exe") (inl refl, tt) refl refl

get_proc_full_path_missing_applied :
    get_proc_full_path
      (some (codes "C:\\" ∷ codes "E:\\" ∷ []))
      devices
      (some (codes "\\Device\\Mup\\a.exe"))
    ≡ []
unfolding same_folded begins_with
get_proc_full_path_missing_applied =
    get_proc_full_path_missing devices (codes "C:\\" ∷ []) (codes "E:\\" ∷ [])
      (codes "\\Device\\Mup\\a.exe") (inr (codes "\\Device\\HarddiskVolume1", refl, refl), tt)
      (refl, refl)

abbrev hot_key : Msg
hot_key = record { message = 0x312; w_param = 0x1234 }

abbrev other_key : Msg
other_key = record { message = 0x312; w_param = 1 }

pre_translate_all_lem_applied :
    pre_translate_all (hot_key ∷ other_key ∷ hot_key ∷ hot_key ∷ []) true ≡ false
pre_translate_all_lem_applied =
    pre_translate_all_lem (hot_key ∷ other_key ∷ hot_key ∷ hot_key ∷ []) true

do_clean_memory_lem_applied : do_clean_memory (4 ∷ 8 ∷ 12 ∷ []) ≡ 4 ∷ 8 ∷ 12 ∷ []
do_clean_memory_lem_applied = do_clean_memory_lem (4 ∷ 8 ∷ 12 ∷ [])

abbrev reboot : ℕ
reboot = 32788

on_command_range_mmenu-Exits_applied :
    ((reboot ≡ 32787) × Exits 12 (on_command_range_mmenu [] reboot))
    ⊎ (((reboot ≡ 32788) × Exits 6 (on_command_range_mmenu [] reboot))
        ⊎ ((reboot ≡ 32789) × Exits 4 (on_command_range_mmenu [] reboot)))
unfolding on_command_range_mmenu
on_command_range_mmenu-Exits_applied = on_command_range_mmenu-Exits [] reboot refl

abbrev pub at_times : ℕ → ℕ → Answers
at_times t load = record {
  local_time = no_time;
  system_times = record { idle_time = t; kernel_time = 2 * t; user_time = t };
  memory_load = load;
}

-- A stand-in for the load: the idle times.
abbrev idle_times : SystemTimes → SystemTimes → Text
idle_times a b = a.idle_time ∷ b.idle_time ∷ []

abbrev pub bar : StatusBar
bar = record {
  time_pane = [];
  memory_pane = [];
  cpu_pane = [];
  times = record { idle_time = 0; kernel_time = 0; user_time = 0 };
}

on_timers_lem_applied :
    let bar' =
      on_timers idle_times
        ((2, at_times 1 10) ∷ (2, at_times 5 20) ∷ (1, at_times 6 0) ∷ (2, at_times 9 30) ∷ [])
        bar in
    (bar'.memory_pane ≡ memory_text 30) × (bar'.cpu_pane ≡ 5 ∷ 9 ∷ [])
on_timers_lem_applied =
    on_timers_lem idle_times ((2, at_times 1 10) ∷ []) (at_times 6 0 ∷ []) (at_times 5 20)
      (at_times 9 30) bar

-- A folder with an infected file, a hidden folder, and a folder with another infected file.
abbrev pub file_of : Text → List ℕ → File
file_of name content = record {
  name = name;
  hidden = false;
  created = no_time;
  written = no_time;
  size = 3;
  get_file_size = 3;
  content = content;
}

abbrev disk : Folder
disk = opened (
    file_entry (file_of (codes "a") (0xab ∷ [])) (
      folder_entry (codes "h") true (opened (file_entry (file_of (codes "b") (0xab ∷ [])) no_more))
        (folder_entry (codes "d") false
          (opened (
            file_entry (file_of (codes "c") (0xab ∷ []))
              (file_entry (file_of (codes "e") (1 ∷ [])) no_more)))
          no_more)))

-- A stand-in for MD5: the bytes themselves.
abbrev pub itself : List ℕ → List ℕ
itself content = content

abbrev pub virus_text : Text
virus_text = codes "AB000000000000000000000000000000"

enum_all_lem_example :
    let (s', boxes') =
      enum_all listed itself disk_c
        (virus_text ∷ [])
        (codes "C:")
        disk
        (record { n_index = 0; list = []; held = λ k. 0 }, []) in
    (s'.list
      ≡ row_of (codes "C:\\a" ∷ virus_text ∷ []) ∷ row_of (codes "C:\\d\\c" ∷ virus_text ∷ []) ∷ [])
    × (s'.n_index ≡ length s'.list)
unfolding folder_rows digest_text hex_text format_byte format_hex
enum_all_lem_example =
    enum_all_lem listed itself disk_c (virus_text ∷ []) (codes "C:") disk
      (record { n_index = 0; list = []; held = λ k. 0 }) [] refl
