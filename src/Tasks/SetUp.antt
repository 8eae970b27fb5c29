-- ===== src/Tasks/SetUp.antt =====
-- How the main window starts: OnInitDialog and OnSysCommand of
-- ProcessMangerAlpha/ProcessMangerAlphaDlg.cpp. The entry of the system menu, the icons and the widths
-- are left out.
use process_manger_alpha.Base.{
  ℕ, ◌+◌, ◌*◌, ◌/◌, ◌%◌, ◌<◌, ◌==◌, ◌≡◌, ◌↔◌, refl, arith, Bool, true, false, not, List, [], ◌∷◌,
  map, length, insert_at, ap, if◌then◌else◌,
}
use process_manger_alpha.Text.{Text, codes}
use process_manger_alpha.ListView.{ListView}
use process_manger_alpha.Tasks.Blacklist.{ProcessEntry}
use process_manger_alpha.Tasks.Threads.{ThreadEntry}
use process_manger_alpha.Tasks.Processes.{MainDialog, traverse_process, traverse_process_lem}
use process_manger_alpha.Tasks.Window.{wm_hotkey, pre_translate_message}
use process_manger_alpha.Tasks.StatusBar.{
  SystemTimes, Answers, StatusBar, clock_text, memory_text, on_timers,
}

-- RegisterHotKey: the identifier, MOD_CONTROL + MOD_SHIFT, and the key.
pub record HotKey : Type 0 where
  pub id : ℕ
  pub modifiers : ℕ
  pub key : ℕ

abbrev mod_control : ℕ
mod_control = 2

abbrev mod_shift : ℕ
mod_shift = 4

-- InsertColumn(i, title)
abbrev pub insert_column : ℕ → Text → List Text → List Text
insert_column i title columns = insert_at i title columns

-- OnSysCommand: whether the box About opens; IDM_ABOUTBOX is 0x0010, and the test is of
-- `nID & 0xFFF0`.
unfoldable pub on_sys_command : ℕ → Bool
on_sys_command n_id = n_id % 65536 / 16 * 16 == 0x10

-- The four lowest bits, which the system uses itself, and those above the sixteenth make no
-- difference to what a system command does here.
pub on_sys_command_lem :
    (high n_id low : ℕ)
    → n_id < 4096
    → low < 16
    → (on_sys_command (high * 65536 + n_id * 16 + low) ≡ true) ↔ (n_id ≡ 1)
unfolding on_sys_command
on_sys_command_lem high n_id low h k = ground arith

toggled : (visible : Bool) → (if visible then false else true) ≡ not visible
toggled true = refl
toggled false = refl

map_fuse {ℓ κ μ} :
    {A : Type ℓ} {B : Type κ} {C : Type μ} (g : B → C) (f : A → B) (h : A → C)
    → ((x : A) → g (f x) ≡ h x)
    → (xs : List A) → map g (map f xs) ≡ map h xs
map_fuse g f h e [] = refl
map_fuse g f h e (x ∷ xs) = rw (e x) (ap (◌∷◌ (h x)) (map_fuse g f h e xs))

module _ (v : ListView) where
  open v use {rows}

  pub record MainWindow : Type 0 where
    pub dialog : MainDialog v
    pub columns : List Text
    pub hot_keys : List HotKey
    -- the timers with their times in milliseconds
    pub timers : List (ℕ × ℕ)
    pub bar : StatusBar

  -- OnInitDialog, with what the system reports: the processes and the threads, the paths, and the
  -- times of GetSystemTimes.
  unfoldable pub on_init_dialog :
      List ProcessEntry → List ThreadEntry → (ℕ → Text) → SystemTimes → MainWindow → MainWindow
  on_init_dialog snapshot threads full_path started w = record {
    dialog = traverse_process v snapshot threads full_path w.dialog;
    columns = insert_column 3 (codes "进程路径") (
        insert_column 2 (codes "线程数量")
          (insert_column 1 (codes "进程名") (insert_column 0 (codes "PID") w.columns)));
    hot_keys = record { id = 0x1234; modifiers = mod_control + mod_shift; key = b'H' } ∷ w.hot_keys;
    timers = (1, 1000) ∷ (2, 3000) ∷ w.timers;
    bar = record {
      time_pane = codes "获取系统时间中";
      memory_pane = codes "获取内存信息中";
      cpu_pane = codes "获取CPU信息中";
      times = started;
    };
  }

  -- A window that is set up with nothing there before: the hot key that it registers hides it when it
  -- is visible and shows it when it is not; once both its timers have gone off, the status bar shows
  -- the time, the memory and the load of the CPU since the start; and every process of the snapshot
  -- has a row, with a text for each column.
  pub on_init_dialog_lem :
      (snapshot : List ProcessEntry) (threads : List ThreadEntry) (full_path : ℕ → Text)
      (started : SystemTimes) (w : MainWindow) (cpu_text : SystemTimes → SystemTimes → Text)
      (visible : Bool) (a : Answers)
      → rows w.dialog.list ≡ []
      → w.columns ≡ []
      → w.hot_keys ≡ []
      → w.timers ≡ []
      → let w' = on_init_dialog snapshot threads full_path started w in
        (map
            (λ k. pre_translate_message (record { message = wm_hotkey; w_param = k.id }) visible)
            w'.hot_keys
          ≡ not visible ∷ [])
        × (on_timers cpu_text (map (λ t. (t.0, a)) w'.timers) w'.bar ≡ record {
          time_pane = clock_text a.local_time;
          memory_pane = memory_text a.memory_load;
          cpu_pane = cpu_text started a.system_times;
          times = a.system_times;
        })
        × (map (λ r. length r.cells) (rows w'.dialog.list) ≡ map (λ p. length w'.columns) snapshot)
  unfolding on_init_dialog pre_translate_message on_timers
  on_init_dialog_lem snapshot threads full_path started w cpu_text visible a empty cols keys
        timers =
      (
        rw (keys, toggled visible),
        rw timers refl,
        rw (traverse_process_lem v snapshot threads full_path w.dialog empty, cols)
            (map_fuse _ _ (λ p. 4) (λ p. refl) snapshot),
      )
