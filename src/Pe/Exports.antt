-- ===== src/Pe/Exports.antt =====
-- The export table: ProcessMangerAlpha/CExportTableDialog.cpp.
pub mod Rows
pub mod Named
pub mod Directory
use process_manger_alpha.Base.{
  ℕ, zero, suc, ◌+◌, ◌*◌, ◌==◌, if◌then◌else◌, Bool, true, false, Option, some, none, List, [], ◌∷◌,
}
use process_manger_alpha.Text.{Text, codes, format_hex_padded, format_hex_blank}
use process_manger_alpha.ListView.{ListView}
use process_manger_alpha.ListView.Rows.{insert_row}
use process_manger_alpha.Pe.Image.{Image, word_at, dword_at, string_at}
use process_manger_alpha.Pe.Globals.{Action, pure, ◌>>=◌, need, buffer}
use process_manger_alpha.Pe.Headers.{add_dword}
use process_manger_alpha.Pe.Address.{rva_to_foa}
use process_manger_alpha.Pe.Tables.{table_foa}

-- The texts beside the list.
pub record ExportHead : Type 0 where
  pub foa : Text
  pub charact : Text
  pub name_offset : Text
  pub name : Text
  pub base : Text
  pub number_of_func : Text
  pub number_of_func_name : Text
  pub func_add : Text
  pub func_name_add : Text
  pub func_name_ordinal_add : Text

-- Where the three tables of the directory lie in the file, and how long they are.
pub record ExportTables : Type 0 where
  pub base : ℕ
  pub func_count : ℕ
  pub name_count : ℕ
  pub func_table : ℕ
  pub name_table : ℕ
  pub ordinal_table : ℕ

-- The inner loop: the first place in the ordinal table, from `i` on, that holds `index`.
unfoldable pub find_ordinal : Image → ExportTables → ℕ → ℕ → ℕ → Action (Option ℕ)
find_ordinal img t index zero i = pure none
find_ordinal img t index (suc left) i = do
  ordinal ← need (word_at img (t.ordinal_table + 2 * i))
  let next = find_ordinal img t index left (suc i)
  if index == ordinal then pure (some i) else next

-- The name of the function that stands at a place in the name table.
unfoldable pub export_name : Image → ExportTables → Option ℕ → Action Text
export_name img t none = pure (codes "--")
export_name img t (some i) = do
  rva ← need (dword_at img (t.name_table + 4 * i))
  foa ← rva_to_foa rva
  need (string_at img foa)

-- The texts of a row; a function without a name has none to be found.
unfoldable pub export_texts : Image → ExportTables → ℕ → ℕ → Action (List Text)
unfolding find_ordinal export_name
export_texts img t index entry = do
  place ← find_ordinal img t index t.name_count 0
  name ← export_name img t place
  foa ← rva_to_foa entry
  pure (
      format_hex_padded 4 (add_dword index t.base)
      ∷ format_hex_padded 8 entry
      ∷ format_hex_padded 8 foa
      ∷ name
      ∷ [])

module _ (v : ListView) where
  open v use {Ctrl}

  -- The loop over the function table; an entry that is 0 is passed over.
  unfoldable pub export_rows : Image → ExportTables → ℕ → ℕ → ℕ → Ctrl → Action Ctrl
  export_rows img t zero index i_col c = pure c
  export_rows img t (suc left) index i_col c = do
    entry ← need (dword_at img (t.func_table + 4 * index))
    let passed = export_rows img t left (suc index) i_col c
    let shown = (do
      texts ← export_texts img t index entry
      export_rows img t left (suc index) (suc i_col) (insert_row v i_col texts c))
    if entry == 0 then passed else shown

  -- getExportTableInfo
  unfoldable pub get_export_table_info : Ctrl → Action (ExportHead × Ctrl)
  unfolding export_rows
  get_export_table_info c = do
    table ← table_foa 0
    img ← buffer
    charact ← need (dword_at img table)
    name_rva ← need (dword_at img (table + 12))
    name_foa ← rva_to_foa name_rva
    name ← need (string_at img name_foa)
    base ← need (dword_at img (table + 16))
    func_count ← need (dword_at img (table + 20))
    name_count ← need (dword_at img (table + 24))
    func_rva ← need (dword_at img (table + 28))
    func_table ← rva_to_foa func_rva
    names_rva ← need (dword_at img (table + 32))
    name_table ← rva_to_foa names_rva
    ordinals_rva ← need (dword_at img (table + 36))
    ordinal_table ← rva_to_foa ordinals_rva
    let t : ExportTables = record {
      base = base;
      func_count = func_count;
      name_count = name_count;
      func_table = func_table;
      name_table = name_table;
      ordinal_table = ordinal_table;
    }
    shown ← export_rows img t func_count 0 0 c
    pure (
      record {
        foa = format_hex_blank 8 table;
        charact = format_hex_blank 8 charact;
        name_offset = format_hex_blank 8 name_rva;
        name = name;
        base = format_hex_blank 8 base;
        number_of_func = format_hex_blank 8 func_count;
        number_of_func_name = format_hex_blank 8 name_count;
        func_add = format_hex_blank 8 func_rva;
        func_name_add = format_hex_blank 8 names_rva;
        func_name_ordinal_add = format_hex_blank 8 ordinals_rva;
      },
      shown,
    )
