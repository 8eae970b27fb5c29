-- ===== src/Pe/Exports/Directory.antt =====
-- getExportTableInfo of ProcessMangerAlpha/CExportTableDialog.cpp as a whole.
use process_manger_alpha.Base.{ℕ, ◌+◌, some, List, [], ◌≡◌, refl, ap, length}
use process_manger_alpha.Text.{Text, format_hex_blank}
use process_manger_alpha.ListView.{ListView}
use process_manger_alpha.Pe.Image.{Image, dword_at, string_at}
use process_manger_alpha.Pe.Globals.{Globals, ◌>>=◌, need, buffer}
use process_manger_alpha.Pe.Tables.{table_foa}
use process_manger_alpha.Pe.Address.{rva_to_foa}
use process_manger_alpha.Pe.Address.Table.{Section, HasTable}
use process_manger_alpha.Pe.Exports.{ExportHead, ExportTables, export_rows, get_export_table_info}
use process_manger_alpha.Pe.Exports.Rows.{OrdinalsAt}
use process_manger_alpha.Pe.Exports.Named.{
  Export, Moved, ExportsAt, rows_of, rva_to_foa-Moved, export_rows-ExportsAt,
}

-- The export directory at a place of the file: what it says of the module's name and of the three
-- tables, whose addresses lie in sections.
pub record Directory (img : Image) (table : List Section) (place : ℕ) (t : ExportTables)
    : Type 0 where
  pub charact : ℕ
  pub name_rva : ℕ
  pub name_foa : ℕ
  pub name : Text
  pub func_rva : ℕ
  pub names_rva : ℕ
  pub ordinals_rva : ℕ
  pub charact_is : dword_at img place ≡ some charact
  pub name_rva_is : dword_at img (place + 12) ≡ some name_rva
  pub name_moved : Moved table name_rva name_foa
  pub name_is : string_at img name_foa ≡ some name
  pub base_is : dword_at img (place + 16) ≡ some t.base
  pub func_count_is : dword_at img (place + 20) ≡ some t.func_count
  pub name_count_is : dword_at img (place + 24) ≡ some t.name_count
  pub func_rva_is : dword_at img (place + 28) ≡ some func_rva
  pub func_moved : Moved table func_rva t.func_table
  pub names_rva_is : dword_at img (place + 32) ≡ some names_rva
  pub names_moved : Moved table names_rva t.name_table
  pub ordinals_rva_is : dword_at img (place + 36) ≡ some ordinals_rva
  pub ordinals_moved : Moved table ordinals_rva t.ordinal_table

-- The texts beside the list.
abbrev pub head_of :
    (img : Image) (table : List Section) (place : ℕ) (t : ExportTables)
    → Directory img table place t
    → ExportHead
head_of img table place t d = record {
  foa = format_hex_blank 8 place;
  charact = format_hex_blank 8 d.charact;
  name_offset = format_hex_blank 8 d.name_rva;
  name = d.name;
  base = format_hex_blank 8 t.base;
  number_of_func = format_hex_blank 8 t.func_count;
  number_of_func_name = format_hex_blank 8 t.name_count;
  func_add = format_hex_blank 8 d.func_rva;
  func_name_add = format_hex_blank 8 d.names_rva;
  func_name_ordinal_add = format_hex_blank 8 d.ordinals_rva;
}

-- The conversions take the globals from `g₁` to `g₅`, from which the loop starts.
get_export_table_info-runs :
    (v : ListView) (place : ℕ) (t : ExportTables) (c c' : v.Ctrl) (g g₁ g₂ g₃ g₄ g₅ g' : Globals)
    (img : Image) (table : List Section) (d : Directory img table place t)
    → table_foa 0 g ≡ some (place, g₁)
    → buffer g₁ ≡ some (img, g₁)
    → rva_to_foa d.name_rva g₁ ≡ some (d.name_foa, g₂)
    → rva_to_foa d.func_rva g₂ ≡ some (t.func_table, g₃)
    → rva_to_foa d.names_rva g₃ ≡ some (t.name_table, g₄)
    → rva_to_foa d.ordinals_rva g₄ ≡ some (t.ordinal_table, g₅)
    → export_rows v img t t.func_count 0 0 c g₅ ≡ some (c', g')
    → get_export_table_info v c g ≡ some ((head_of img table place t d, c'), g')
unfolding get_export_table_info
get_export_table_info-runs v place t c c' g g₁ g₂ g₃ g₄ g₅ g' img table d at_place loaded name funcs
      names places runs =
    rw (◌>>=◌, at_place, loaded)
      (rw (◌>>=◌, need, d.charact_is, d.name_rva_is)
        (rw
          (◌>>=◌, name, need, d.name_is, d.base_is, d.func_count_is, d.name_count_is, d.func_rva_is)
          (rw (◌>>=◌, funcs, need, d.names_rva_is)
            (rw (◌>>=◌, names, need, d.ordinals_rva_is) (rw (◌>>=◌, places, runs) refl)))))

-- A file whose section headers, export directory and ordinal table can be read: for the functions of
-- its export table, each of them unused or with an address and a name that can be found, the dialog
-- shows what the directory says (`head_of`), and its list, empty at the start, gets
-- one row for each function that is used, in order. The row has the ordinal, the address, its place in
-- the file, and the first name with the function's index in the ordinal table, or `--`.
pub get_export_table_info-ExportsAt :
    (v : ListView) (place : ℕ) (t : ExportTables) (os : List ℕ) (es : List Export) (c : v.Ctrl)
    (g g₁ : Globals) (img : Image) (table : List Section) (d : Directory img table place t)
    → table_foa 0 g ≡ some (place, g₁)
    → HasTable g₁ img table
    → OrdinalsAt img t 0 os
    → length os ≡ t.name_count
    → ExportsAt img t table os 0 es
    → length es ≡ t.func_count
    → v.rows c ≡ []
    → (c' : v.Ctrl) × (g' : Globals) × (get_export_table_info v c g
        ≡ some ((head_of img table place t d, c'), g'))
      × (v.rows c' ≡ rows_of t.base 0 es)
get_export_table_info-ExportsAt v place t os es c g g₁ img table d at_place h ordinals count a total
      empty =
    let (g₂, name, h₂) = rva_to_foa-Moved img table d.name_rva d.name_foa g₁ h d.name_moved in
    let (g₃, funcs, h₃) = rva_to_foa-Moved img table d.func_rva t.func_table g₂ h₂ d.func_moved in
    let (g₄, names, h₄) = rva_to_foa-Moved img table d.names_rva t.name_table g₃ h₃ d.names_moved in
    let (g₅, places, h₅) =
      rva_to_foa-Moved img table d.ordinals_rva t.ordinal_table g₄ h₄ d.ordinals_moved in
    let (c', g', runs, shown) =
      export_rows-ExportsAt img t table os ordinals count v es c g₅ h₅ a in
    (
      c',
      g',
      get_export_table_info-runs v place t c c' g g₁ g₂ g₃ g₄ g₅ g' img table d at_place
          (ap (λ b. need b g₁) h.in_buffer) name funcs names places (rw (total, empty) at runs),
      rw empty at shown,
    )
