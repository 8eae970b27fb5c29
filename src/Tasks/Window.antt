-- ===== src/Tasks/Window.antt =====
-- The main window of ProcessMangerAlpha/ProcessMangerAlphaDlg.cpp: the hot key, the main menu, and the
-- command that trims the processes.
use process_manger_alpha.Base.{
  ℕ, zero, suc, ◌+◌, ◌*◌, ◌/◌, ◌%◌, ◌≤◌, ◌==◌, ◌≡◌, ◌⊎◌, refl, ap, ◌∙◌, sym, min, Bool, true, false,
  not, ◌&&◌, if◌then◌else◌, some, none, List, [], ◌∷◌, ◌++◌, take, length, arith, get_elem?,
  get_elem?-append_length, keep, length-append, append_assoc, length-filled, length-take-min,
  take-filled, filled-length, filled,
}
use process_manger_alpha.Text.{Text, codes}

-- A message: its number and its wParam.
pub record Msg : Type 0 where
  pub message : ℕ
  pub w_param : ℕ

abbrev pub wm_hotkey : ℕ
wm_hotkey = 0x312

abbrev pub is_boss_key : Msg → Bool
is_boss_key m = m.message == wm_hotkey && m.w_param == 0x1234

-- PreTranslateMessage, on whether the window is visible.
unfoldable pub pre_translate_message : Msg → Bool → Bool
pre_translate_message m visible =
    if is_boss_key m then (if visible then false else true) else visible

-- The messages one after another.
unfoldable pub pre_translate_all : List Msg → Bool → Bool
unfolding pre_translate_message
pre_translate_all [] visible = visible
pre_translate_all (m ∷ ms) visible = pre_translate_all ms (pre_translate_message m visible)

-- What the main menu does, in order.
pub data Effect : Type 0 where
  services_dialog pe_file_dialog windows_dialog cleaner_dialog : Effect
  virus_defence_dialog uninstall_dialog start_up_dialog : Effect
  -- the files of the folder that the user picks
  files_dialog : Text → Effect
  clean_memory upper_privileges lock_work_station : Effect
  empty_recycle_bin exit_windows : ℕ → Effect
  show_message : Text → Effect

-- SHERB_NOCONFIRMATION, SHERB_NOPROGRESSUI and SHERB_NOSOUND, and the flags of ExitWindowsEx.
abbrev pub sherb_noconfirmation : ℕ
sherb_noconfirmation = 1

abbrev pub ewx_logoff : ℕ
ewx_logoff = 0

abbrev pub ewx_reboot : ℕ
ewx_reboot = 2

abbrev pub ewx_force : ℕ
ewx_force = 4

abbrev pub ewx_poweroff : ℕ
ewx_poweroff = 8

-- OnCommandRangeMMenu: the commands ID_32779 to ID_32793. The flags for the recycle bin are joined by
-- `||`, which makes 1 of them.
abbrev commands : Text → List (ℕ × List Effect)
commands folder =
    (32779, services_dialog ∷ [])
    ∷ (32780, pe_file_dialog ∷ [])
    ∷ (32781, windows_dialog ∷ [])
    ∷ (32782, files_dialog folder ∷ [])
    ∷ (32783, clean_memory ∷ show_message (codes "内存清理完毕！") ∷ [])
    ∷ (32784, empty_recycle_bin 1 ∷ show_message (codes "回收站已清空！") ∷ [])
    ∷ (32785, cleaner_dialog ∷ [])
    ∷ (32786, virus_defence_dialog ∷ [])
    ∷ (32787, upper_privileges ∷ exit_windows (ewx_poweroff + ewx_force) ∷ [])
    ∷ (32788, upper_privileges ∷ exit_windows (ewx_reboot + ewx_force) ∷ [])
    ∷ (32789, upper_privileges ∷ exit_windows (ewx_logoff + ewx_force) ∷ [])
    ∷ (32790, upper_privileges ∷ lock_work_station ∷ [])
    ∷ (32791, show_message (codes "Ctrl + Shift + H") ∷ [])
    ∷ (32792, uninstall_dialog ∷ [])
    ∷ (32793, start_up_dialog ∷ [])
    ∷ []

abbrev chosen : ℕ → List (ℕ × List Effect) → List Effect
chosen n_id [] = []
chosen n_id ((k, effects) ∷ rest) = if n_id == k then effects else chosen n_id rest

unfoldable pub on_command_range_mmenu : Text → ℕ → List Effect
on_command_range_mmenu folder n_id = chosen n_id (commands folder)

-- doCleanMemory, on the processes that there are: EnumProcesses fills an array of 1000 numbers with as
-- many as fit, and says how many bytes it wrote. The result is whose working set is trimmed.
unfoldable pub trim_loop : ℕ → ℕ → List ℕ → List ℕ
trim_loop zero i pid_list = []
trim_loop (suc left) i pid_list = elim (get_elem? pid_list i) [
  | none ↦ []
  | some pid ↦ pid ∷ trim_loop left (suc i) pid_list
]

unfoldable pub do_clean_memory : List ℕ → List ℕ
unfolding trim_loop
do_clean_memory processes =
    let need_size = 4 * min 1000 (length processes) in
    trim_loop (need_size / 4) 0 (filled 1000 (take 1000 processes))

trim_loop-take :
    (left : ℕ) (before xs : List ℕ)
    → left ≤ length xs
    → trim_loop left (length before) (before ++ xs) ≡ take left xs
unfolding trim_loop
trim_loop-take zero before xs h = refl
trim_loop-take (suc left) before [] h = absurd (omega arith)
trim_loop-take (suc left) before (x ∷ xs) h =
    let next : suc (length before) ≡ length (before ++ x ∷ []) =
      omega (arith, length-append before (x ∷ [])) in
    let rest =
      ap (λ i. trim_loop left i (before ++ x ∷ xs)) next
      ∙ ap (trim_loop left (length (before ++ x ∷ []))) (sym (append_assoc before (x ∷ []) xs))
      ∙ trim_loop-take left (before ++ x ∷ []) xs (omega arith) in
    rw (trim_loop, get_elem?-append_length before x xs) (ap (◌∷◌ x) rest)

-- The first 1000 of the processes are trimmed, each once and in order; the others are not.
pub do_clean_memory_lem : (processes : List ℕ) → do_clean_memory processes ≡ take 1000 processes
unfolding do_clean_memory
do_clean_memory_lem processes =
    let shown = take 1000 processes in
    let size : length shown ≡ min 1000 (length processes) = length-take-min 1000 processes in
    let count : 4 * min 1000 (length processes) / 4 ≡ length shown = omega (arith, size) in
    ap (λ n. trim_loop n 0 (filled 1000 shown)) count
    ∙ trim_loop-take (length shown) [] (filled 1000 shown)
        (omega (arith, size, length-filled 1000 shown))
    ∙ take-filled (length shown) 1000 shown (omega (arith, size))
    ∙ filled-length shown

-- After any messages, the window is visible as it was before when the hot key was among them an even
-- number of times, and the other way round when the number is odd.
pub pre_translate_all_lem :
    (ms : List Msg) (visible : Bool)
    → pre_translate_all ms visible
      ≡ (if length (keep is_boss_key ms) % 2 == 0 then visible else not visible)
unfolding pre_translate_all pre_translate_message
pre_translate_all_lem [] visible = refl
pre_translate_all_lem (m ∷ ms) visible =
    ground (arith, pre_translate_all_lem ms true, pre_translate_all_lem ms false)

-- The menu ends the session by three commands alone, each with the privilege raised first and by
-- force: it powers off, reboots, or logs off.
abbrev pub Exits : ℕ → List Effect → Type 0
Exits flags effects = effects ≡ upper_privileges ∷ exit_windows flags ∷ []

abbrev pub ends_session : List Effect → Bool
ends_session [] = false
ends_session (exit_windows flags ∷ es) = true
ends_session (_ ∷ es) = ends_session es

pub on_command_range_mmenu-Exits :
    (folder : Text) (n_id : ℕ)
    → ends_session (on_command_range_mmenu folder n_id) ≡ true
    → ((n_id ≡ 32787) × Exits 12 (on_command_range_mmenu folder n_id))
      ⊎ (((n_id ≡ 32788) × Exits 6 (on_command_range_mmenu folder n_id))
          ⊎ ((n_id ≡ 32789) × Exits 4 (on_command_range_mmenu folder n_id)))
unfolding on_command_range_mmenu
on_command_range_mmenu-Exits folder n_id h = ground arith
