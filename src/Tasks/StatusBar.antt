-- ===== src/Tasks/StatusBar.antt =====
-- The timers of the main window (OnTimer of ProcessMangerAlpha/ProcessMangerAlphaDlg.cpp), which fill
-- the status bar. The text of the load of the CPU, from two readings of GetSystemTimes, is a parameter
-- here; Tasks/CpuLoad has the one that is used.
use process_manger_alpha.Base.{ℕ, ◌==◌, ◌≡◌, refl, ap, ◌∙◌, if◌then◌else◌, List, [], ◌∷◌, ◌++◌, map}
use process_manger_alpha.Text.{Text, codes, pad, format_decimal}
use process_manger_alpha.Scan.{SystemTime}

pub record SystemTimes : Type 0 where
  pub idle_time : ℕ
  pub kernel_time : ℕ
  pub user_time : ℕ

-- What the system answers while a timer is handled.
pub record Answers : Type 0 where
  pub local_time : SystemTime
  pub system_times : SystemTimes
  pub memory_load : ℕ

-- The panes, and `idleTime`, `kernelTime` and `userTime`.
pub record StatusBar : Type 0 where
  pub time_pane : Text
  pub memory_pane : Text
  pub cpu_pane : Text
  pub times : SystemTimes

-- `%4d` and `%2d`
abbrev pub blanks : ℕ → ℕ → Text
blanks w n = pad b' ' w (format_decimal n)

abbrev pub clock_text : SystemTime → Text
clock_text st =
    blanks 4 st.year
    ++ codes "-"
    ++ blanks 2 st.month
    ++ codes "-"
    ++ blanks 2 st.day
    ++ codes "  "
    ++ blanks 2 st.hour
    ++ codes ":"
    ++ blanks 2 st.minute
    ++ codes ":"
    ++ blanks 2 st.second

abbrev pub memory_text : ℕ → Text
memory_text load = codes "内存占用率 " ++ format_decimal load ++ codes "%"

module _ (cpu_text : SystemTimes → SystemTimes → Text) where
  unfoldable pub on_timer : ℕ → Answers → StatusBar → StatusBar
  on_timer n_id_event a bar =
      let ticked =
        if n_id_event == 1 then record bar { time_pane = clock_text a.local_time } else bar in
      if n_id_event == 2
      then record ticked {
        times = a.system_times;
        memory_pane = memory_text a.memory_load;
        cpu_pane = cpu_text ticked.times a.system_times;
      }
      else ticked

  -- The events of the timers one after another.
  unfoldable pub on_timers : List (ℕ × Answers) → StatusBar → StatusBar
  unfolding on_timer
  on_timers [] bar = bar
  on_timers ((n_id_event, a) ∷ es) bar = on_timers es (on_timer n_id_event a bar)

  on_timers-append :
      (xs ys : List (ℕ × Answers)) (bar : StatusBar)
      → on_timers (xs ++ ys) bar ≡ on_timers ys (on_timers xs bar)
  unfolding on_timers
  on_timers-append [] ys bar = refl
  on_timers-append ((n, a) ∷ xs) ys bar = on_timers-append xs ys (on_timer n a bar)

  -- The events of the first timer.
  abbrev pub clock_events : List Answers → List (ℕ × Answers)
  clock_events answers = map (λ a. (1, a)) answers

  on_timers-clock_events :
      (answers : List Answers) (bar : StatusBar)
      → (on_timers (clock_events answers) bar).times ≡ bar.times
  unfolding on_timers on_timer
  on_timers-clock_events [] bar = refl
  on_timers-clock_events (a ∷ answers) bar = on_timers-clock_events answers (on_timer 1 a bar)

  -- Whatever came before, after two events of the second timer with events of the first between them,
  -- the memory is that of the latest event, and the load of the CPU is that between the two.
  pub on_timers_lem :
      (before : List (ℕ × Answers)) (answers : List Answers) (a b : Answers) (bar : StatusBar)
      → let bar' = on_timers (before ++ (2, a) ∷ (clock_events answers ++ (2, b) ∷ [])) bar in
        (bar'.memory_pane ≡ memory_text b.memory_load)
        × (bar'.cpu_pane ≡ cpu_text a.system_times b.system_times)
  unfolding on_timers on_timer
  on_timers_lem before answers a b bar =
      let mid = on_timer 2 a (on_timers before bar) in
      let e =
        on_timers-append before ((2, a) ∷ (clock_events answers ++ (2, b) ∷ [])) bar
        ∙ on_timers-append (clock_events answers) ((2, b) ∷ []) mid in
      (
        ap (λ t. t.memory_pane) e,
        ap (λ t. t.cpu_pane) e
            ∙ ap (λ t. cpu_text t b.system_times) (on_timers-clock_events answers mid),
      )
