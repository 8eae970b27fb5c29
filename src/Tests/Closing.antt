-- ===== src/Tests/Closing.antt =====
-- Dialogs that are closed while a thread fills their list, the start of the main window, and the load
-- of the CPU, on concrete inputs.
use process_manger_alpha.Base.{
  ℕ, zero, suc, ◌<◌, ◌≤◌, ◌+◌, ◌-◌, ◌*◌, ◌^◌, ◌==◌, ◌≡◌, ◌⊎◌, inl, inr, refl, arith, true, false,
  List, [], ◌∷◌, ◌++◌, length, map, All, if◌then◌else◌,
}
use process_manger_alpha.Text.{Text, codes, format_decimal, tcstol, hex_text, format_byte}
use process_manger_alpha.ListView.{get_cell}
use process_manger_alpha.ListView.Listed.{listed}
use process_manger_alpha.ListView.Edits.{StoppedRows}
use process_manger_alpha.Scan.Walk.{folder_rows}
use process_manger_alpha.Scan.Viruses.{digest_text}
use process_manger_alpha.Scan.Viruses.Paths.{ShowsPath}
use process_manger_alpha.Scan.Viruses.Stopped.{on_close, on_close-ShowsPath}
use process_manger_alpha.Scan.Files.{find_files_proc}
use process_manger_alpha.Scan.Files.Icons.{find_files_proc-icons}
use process_manger_alpha.Scan.Cleaner.{read_postfixes, choose_folder}
use process_manger_alpha.Scan.Cleaner.Postfixes.{choose_folder-read_postfixes}
use process_manger_alpha.Tasks.Blacklist.{ProcessEntry}
use process_manger_alpha.Tasks.Heap.{heap_texts, all_blocks}
use process_manger_alpha.Tasks.Heap as Heap
use process_manger_alpha.Tasks.Heap.Closing.{on_close-StoppedRows}
use process_manger_alpha.Tasks.StatusBar.{SystemTimes, clock_text, memory_text, on_timers}
use process_manger_alpha.Tasks.CpuLoad.{Floats, IsExact, cpu_text, cpu_text_lem}
use process_manger_alpha.Tasks.SetUp.{
  MainWindow, on_init_dialog, on_init_dialog_lem, on_sys_command, on_sys_command_lem,
}
use process_manger_alpha.Tasks.Window.{wm_hotkey, pre_translate_message}
use process_manger_alpha.Tests.Scans.{cleaner, folder}
use process_manger_alpha.Tests.System.{heaps}
use process_manger_alpha.Tests.Threads.{infected}
use process_manger_alpha.Tests.Windows.{itself, at_times, bar}

on_close-StoppedRows_example :
    StoppedRows heap_texts
      (all_blocks (heaps (tcstol 10 (codes "4"))))
      (Heap.on_close listed 5 heaps (codes "4") [])
on_close-StoppedRows_example = on_close-StoppedRows listed 5 heaps (codes "4") [] refl

abbrev lower_text : Text
lower_text = codes "ab000000000000000000000000000000"

abbrev IsInfected : Text → Type 0
IsInfected path = (path ≡ []) ⊎ (path ≡ codes "C:\\v")

on_close-ShowsPath_applied :
    All (ShowsPath IsInfected) (on_close listed itself 2 (lower_text ∷ []) (codes "C:") infected [])
unfolding folder_rows digest_text hex_text format_byte
on_close-ShowsPath_applied =
    on_close-ShowsPath listed itself IsInfected 2 (lower_text ∷ []) (codes "C:") infected []
      (inl refl) (inr refl, tt) tt

icons_example :
    let ((c', boxes'), icons) =
      find_files_proc listed (λ name. length name) (codes "C:\\p") folder ([], []) in
    icons ≡ map (λ r. length (get_cell 0 r.cells)) c'
icons_example = find_files_proc-icons listed (λ name. length name) (codes "C:\\p") folder [] []

choose_folder-read_postfixes_applied :
    let d' = choose_folder listed (codes "D:\\q") (read_postfixes listed cleaner) in
    (d'.postfix_box ≡ codes "x")
    × (d'.postfixes ≡ codes ".obj" ∷ codes ".pdb" ∷ [])
    × (d'.proj_box ≡ codes "D:\\q")
    × (d'.proj_path ≡ codes "D:\\q")
choose_folder-read_postfixes_applied =
    choose_folder-read_postfixes listed cleaner (codes ".obj" ∷ codes ".pdb" ∷ []) (codes "x")
      (codes "D:\\q") refl
      ((refl, (refl, (refl, (refl, tt)))), ((refl, (refl, (refl, (refl, tt)))), tt)) (refl, tt)

-- Whole numbers in the place of floating point numbers.
abbrev quotient : ℕ → ℕ → ℕ
quotient a b = if a == b then 1 else 0

abbrev whole_floats : Floats
whole_floats = record {
  Double = ℕ;
  of_dword = λ n. n;
  two_to_32 = 2 ^ 32;
  hundred = 100;
  add = λ a b. a + b;
  sub = λ a b. a - b;
  mul = λ a b. a * b;
  div = quotient;
  format = format_decimal;
}

quotient-whole : (q b : ℕ) → 0 < b → q ≤ 1 → quotient (q * b) b ≡ q
quotient-whole zero b h k = ground arith
quotient-whole (suc zero) b h k = ground arith
quotient-whole (suc (suc q)) b h k = absurd (omega arith)

abbrev whole_floats-IsExact : IsExact whole_floats
whole_floats-IsExact = record {
  whole = λ n. n;
  of_dword-whole = λ n h. refl;
  two_to_32-whole = refl;
  hundred-whole = refl;
  add-whole = λ a b h. refl;
  sub-whole = λ a b h k. refl;
  mul-whole = λ a b h. refl;
  div-whole = λ q b h k l. quotient-whole q b h k;
}

abbrev times : ℕ → ℕ → ℕ → SystemTimes
times idle kernel user = record { idle_time = idle; kernel_time = kernel; user_time = user }

cpu_text_lem_example :
    cpu_text whole_floats (times 5 10 20) (times 35 30 30)
    ≡ codes "CPU使用率 " ++ format_decimal 0 ++ codes "%"
cpu_text_lem_example =
    cpu_text_lem whole_floats whole_floats-IsExact 1 (times 5 10 20) (times 35 30 30) (omega arith)
      (omega arith) (omega arith) (omega arith) (omega arith) (omega arith) (omega arith)
      (omega arith) refl

abbrev window : MainWindow listed
window = record {
  dialog = record { list = []; row = 0; proc_id = [] };
  columns = [];
  hot_keys = [];
  timers = [];
  bar = bar;
}

abbrev systems : List ProcessEntry
systems = record { id = 4; exe_file = codes "System" } ∷ []

on_init_dialog_lem_example :
    let w' = on_init_dialog listed systems [] (λ pid. []) (times 1 2 3) window in
    (map
        (λ k. pre_translate_message (record { message = wm_hotkey; w_param = k.id }) true)
        w'.hot_keys
      ≡ false ∷ [])
    × (on_timers (cpu_text whole_floats) (map (λ t. (t.0, at_times 5 20)) w'.timers) w'.bar
        ≡ record {
          time_pane = clock_text (at_times 5 20).local_time;
          memory_pane = memory_text 20;
          cpu_pane = cpu_text whole_floats (times 1 2 3) (at_times 5 20).system_times;
          times = (at_times 5 20).system_times;
        })
    × (map (λ r. length r.cells) w'.dialog.list ≡ map (λ p. length w'.columns) systems)
on_init_dialog_lem_example =
    on_init_dialog_lem listed systems [] (λ pid. []) (times 1 2 3) window (cpu_text whole_floats)
      true (at_times 5 20) refl refl refl refl

about_opens : on_sys_command 0x12 ≡ true
about_opens = (on_sys_command_lem 0 1 2 (omega arith) (omega arith)).1 refl
