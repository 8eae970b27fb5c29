-- ===== src/Pe/Imports.antt =====
-- The import table: ProcessMangerAlpha/CImportTableDialog.cpp. Its two loops end at an entry that is
-- 0, so they take fuel; a file with such an entry within the fuel's reach is shown whole.
pub mod Rows
pub mod Ending
use process_manger_alpha.Base.{
  ℕ, zero, suc, ◌+◌, ◌-◌, ◌*◌, ◌≤◌, ◌==◌, leb, if◌then◌else◌, Bool, true, false, Option, some, none,
  List, [], ◌∷◌, ◌++◌, ◌^◌, ◌%◌,
}
use process_manger_alpha.Text.{Text, codes, format_hex_padded, tcstol}
use process_manger_alpha.ListView.{ListView}
use process_manger_alpha.ListView.Rows.{insert_row}
use process_manger_alpha.Pe.Image.{Image, word_at, dword_at, string_at}
use process_manger_alpha.Pe.Globals.{Action, pure, ◌>>=◌, need, undefined, buffer}
use process_manger_alpha.Pe.Headers.{add_dword}
use process_manger_alpha.Pe.Address.{rva_to_foa}
use process_manger_alpha.Pe.Tables.{table_foa}

-- The name column of an imported function: by name, with its hint, or by ordinal.
unfoldable pub thunk_texts : Image → ℕ → Action (List Text)
thunk_texts img thunk =
    let by_name = (do
      foa ← rva_to_foa thunk
      hint ← need (word_at img foa)
      name ← need (string_at img (foa + 2))
      pure (format_hex_padded 4 hint ∷ name ∷ [])) in
    if leb (2 ^ 31) thunk
    then pure (codes "-.-" ∷ (codes "Ordinal: " ++ format_hex_padded 8 (thunk % 2 ^ 31)) ∷ [])
    else by_name

module _ (v : ListView) where
  open v use {Ctrl, delete_all_items, get_item_text}

  -- A round of the loop of `getImportTableInfo`, at the descriptor `desc`; `rest` is the next one.
  unfoldable pub module_round : (Ctrl → Action Ctrl) → Image → ℕ → ℕ → Ctrl → Action Ctrl
  module_round rest img desc i c = do
    name_rva ← need (dword_at img (desc + 12))
    let shown = (do
      name_foa ← rva_to_foa name_rva
      name ← need (string_at img name_foa)
      int_rva ← need (dword_at img desc)
      stamp ← need (dword_at img (desc + 4))
      chain ← need (dword_at img (desc + 8))
      iat_rva ← need (dword_at img (desc + 16))
      rest (
          insert_row v i
            (name
              ∷ format_hex_padded 8 int_rva
              ∷ format_hex_padded 8 stamp
              ∷ format_hex_padded 8 chain
              ∷ format_hex_padded 8 name_rva
              ∷ format_hex_padded 8 iat_rva
              ∷ [])
            c))
    if name_rva == 0 then pure c else shown

  -- The loop. The fuel bounds the descriptors.
  unfoldable pub module_rows : ℕ → Image → ℕ → ℕ → Ctrl → Action Ctrl
  unfolding module_round
  module_rows zero img desc i c = undefined
  module_rows (suc fuel) img desc i c =
      module_round (module_rows fuel img (desc + 20) (suc i)) img desc i c

  unfoldable pub get_import_table_info : ℕ → Ctrl → Action Ctrl
  unfolding module_rows
  get_import_table_info fuel c = do foa ← table_foa 1; img ← buffer; module_rows fuel img foa 0 c

  -- A round of the loop of `getFuncInfo`, at the thunk that is at `rva` in memory and at `foa` in the
  -- file.
  unfoldable pub func_round : (Ctrl → Action Ctrl) → Image → ℕ → ℕ → ℕ → Ctrl → Action Ctrl
  func_round rest img rva foa i c = do
    thunk ← need (dword_at img foa)
    let shown = (do
      named ← thunk_texts img thunk
      rest (
          insert_row v i
            (format_hex_padded 8 rva ∷ format_hex_padded 8 foa ∷ format_hex_padded 8 thunk ∷ named)
            c))
    if thunk == 0 then pure c else shown

  unfoldable pub func_rows : ℕ → Image → ℕ → ℕ → ℕ → Ctrl → Action Ctrl
  unfolding func_round
  func_rows zero img rva foa i c = undefined
  func_rows (suc fuel) img rva foa i c =
      func_round (func_rows fuel img (add_dword rva 4) (add_dword foa 4) (suc i)) img rva foa i c

  unfoldable pub get_func_info : ℕ → ℕ → Ctrl → Action Ctrl
  unfolding func_rows thunk_texts
  get_func_info fuel rva c = do foa ← rva_to_foa rva; img ← buffer; func_rows fuel img rva foa 0 c

  -- OnClickList1, at the row that was clicked: the address of the module's thunks is read back from
  -- the row's last column.
  unfoldable pub show_functions : ℕ → ℕ → Ctrl → Ctrl → Action Ctrl
  unfolding get_func_info
  show_functions fuel row modules funcs =
      get_func_info fuel (tcstol 16 (get_item_text row 5 modules)) (delete_all_items funcs)
