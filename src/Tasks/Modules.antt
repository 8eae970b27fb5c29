-- ===== src/Tasks/Modules.antt =====
-- The modules of a process (ProcessMangerAlpha/CModulesDialog.cpp) and the windows
-- (CWindowsDialog.cpp). Both put every row in at the top, since their counter stays 0.
use process_manger_alpha.Base.{
  ℕ, ◌==◌, Bool, not, ◌&&◌, Bool-cases, inl, inr, List, [], ◌∷◌, ◌++◌, ◌≡◌, refl, ap, ◌∙◌, arith,
  if◌then◌else◌, length, map, keep, reverse, modify_at,
}
use mathlib.Core.List.{reverse_aux}
use process_manger_alpha.Text.{Text, codes, upper, format_hex, format_decimal, tcstol}
use process_manger_alpha.ListView.{Row, ListView, row_of, write_cell}
use process_manger_alpha.ListView.Rows.{insert_row, rows-insert_row}

pub record ModuleEntry : Type 0 where
  pub exe_path : Text
  pub base_address : ℕ
  pub base_size : ℕ

-- The row of a module; the column of its entry point stays empty.
abbrev pub module_row : ModuleEntry → Row
module_row m = row_of (
    m.exe_path
    ∷ []
    ∷ (codes "0x" ++ format_hex upper m.base_address)
    ∷ format_decimal m.base_size
    ∷ [])

-- A window, as IsWindowVisible and GetWindowText see it.
pub record Window : Type 0 where
  pub visible : Bool
  pub title : Text

abbrev pub is_listed : Window → Bool
is_listed w = w.visible && not (length w.title == 0)

module _ (v : ListView) where
  open v use {Ctrl, rows, insert_item, set_item_text, rows-insert_item, rows-set_item_text}

  -- What the loop does for a module, at the counter `i`.
  abbrev pub add_module : ℕ → ModuleEntry → Ctrl → Ctrl
  add_module i m c = set_item_text i 3 (format_decimal m.base_size) (
      set_item_text i 2 (codes "0x" ++ format_hex upper m.base_address)
        (set_item_text i 0 m.exe_path (insert_item i c)))

  unfoldable pub module_rows : ℕ → List ModuleEntry → Ctrl → Ctrl
  module_rows i [] c = c
  module_rows i (m ∷ ms) c = module_rows i ms (add_module i m c)

  -- getModulesInfoByProcID, where `modules` is what the system reports of the process
  unfoldable pub get_modules_info : (ℕ → List ModuleEntry) → Text → Ctrl → Ctrl
  unfolding module_rows
  get_modules_info modules proc_id c = module_rows 0 (modules (tcstol 10 proc_id)) c

  -- EnumWinProc, which the system calls for every window; its `i` is 0 at every call.
  unfoldable pub enum_win_proc : Window → Ctrl → Ctrl
  enum_win_proc w c = if is_listed w then insert_row v 0 (w.title ∷ []) c else c

  -- EnumWindows
  unfoldable pub enum_windows : List Window → Ctrl → Ctrl
  unfolding enum_win_proc
  enum_windows [] c = c
  enum_windows (w ∷ ws) c = enum_windows ws (enum_win_proc w c)

  rows-add_module : (m : ModuleEntry) (c : Ctrl) → rows (add_module 0 m c) ≡ module_row m ∷ rows c
  rows-add_module m c =
      rows-set_item_text 0 3 (format_decimal m.base_size) _
      ∙ ap (modify_at 0 (write_cell 3 (format_decimal m.base_size))) (
          rows-set_item_text 0 2 (codes "0x" ++ format_hex upper m.base_address) _
          ∙ ap (modify_at 0 (write_cell 2 (codes "0x" ++ format_hex upper m.base_address))) (
              rows-set_item_text 0 0 m.exe_path _
              ∙ ap (modify_at 0 (write_cell 0 m.exe_path)) (rows-insert_item 0 c)))

  rows-module_rows :
      (ms : List ModuleEntry) (c : Ctrl)
      → rows (module_rows 0 ms c) ≡ reverse_aux (map module_row ms) (rows c)
  unfolding module_rows
  rows-module_rows [] c = refl
  rows-module_rows (m ∷ ms) c =
      rows-module_rows ms (add_module 0 m c)
      ∙ ap (reverse_aux (map module_row ms)) (rows-add_module m c)

  -- The empty list is filled with the modules of the process, the last one that the system reports
  -- on top, and their entry points are not shown.
  pub get_modules_info_lem :
      (modules : ℕ → List ModuleEntry) (proc_id : Text) (c : Ctrl)
      → rows c ≡ []
      → rows (get_modules_info modules proc_id c)
        ≡ reverse (map module_row (modules (tcstol 10 proc_id)))
  unfolding get_modules_info
  get_modules_info_lem modules proc_id c e =
      rows-module_rows (modules (tcstol 10 proc_id)) c ∙ rw e refl

  rows-enum_windows :
      (ws : List Window) (c : Ctrl)
      → rows (enum_windows ws c)
        ≡ reverse_aux (map (λ w. row_of (w.title ∷ [])) (keep is_listed ws)) (rows c)
  unfolding enum_windows enum_win_proc
  rows-enum_windows [] c = refl
  rows-enum_windows (w ∷ ws) c = elim (Bool-cases (is_listed w)) [
    | inl e ↦
        let put = rows-insert_row v 0 (w.title ∷ []) c (omega arith) in
        rw (enum_windows, enum_win_proc, e)
          (rows-enum_windows ws (insert_row v 0 (w.title ∷ []) c)
            ∙ ap (reverse_aux (map (λ w. row_of (w.title ∷ [])) (keep is_listed ws))) put)
    | inr e ↦ rw (enum_windows, enum_win_proc, e) (rows-enum_windows ws c)
  ]

  -- The empty list is filled with the titles of the visible windows that have one, the last one that
  -- the system reports on top.
  pub enum_windows_lem :
      (ws : List Window) (c : Ctrl)
      → rows c ≡ []
      → rows (enum_windows ws c) ≡ reverse (map (λ w. row_of (w.title ∷ [])) (keep is_listed ws))
  enum_windows_lem ws c e = rows-enum_windows ws c ∙ rw e refl
