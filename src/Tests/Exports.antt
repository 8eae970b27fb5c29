-- ===== src/Tests/Exports.antt =====
-- The export table of a file with three functions: one without a name, an unused one, and one with a
-- name.
use process_manger_alpha.Base.{ℕ, inl, inr, some, List, [], ◌∷◌, ◌++◌, ◌≡◌, refl}
use process_manger_alpha.Text.{codes}
use process_manger_alpha.ListView.{Row}
use process_manger_alpha.ListView.Listed.{listed}
use process_manger_alpha.Pe.Image.{Image, word_at, dword_at, string_at}
use process_manger_alpha.Pe.Globals.{Globals}
use process_manger_alpha.Pe.Headers.{nt_head, first_section}
use process_manger_alpha.Pe.Tables.{table_foa, load_opt_head}
use process_manger_alpha.Pe.Address.{rva_to_foa, rva_loop}
use process_manger_alpha.Pe.Address.Table.{HasTable, locate_rva}
use process_manger_alpha.Pe.Exports.{ExportTables, get_export_table_info}
use process_manger_alpha.Pe.Exports.Rows.{OrdinalsAt}
use process_manger_alpha.Pe.Exports.Named.{Export, ExportsAt, rows_of}
use process_manger_alpha.Pe.Exports.Directory.{Directory, head_of, get_export_table_info-ExportsAt}
use process_manger_alpha.Tests.Sample.{
  zeros, w2, w4, head_bytes, section_bytes, text_bytes, text_section, data_section, loaded,
  sections,
}

-- The entry 0 of the data directory is set.
abbrev opt_bytes : List ℕ
opt_bytes =
    w2 0x10b ++ zeros 26 ++ w4 0x400000 ++ zeros 60 ++ w4 16 ++ w4 0x2000 ++ w4 40 ++ zeros 120

-- The directory, the three tables, and the names of the module and of a function.
abbrev export_bytes : List ℕ
export_bytes =
    zeros 12
    ++ w4 0x2040
    ++ w4 1
    ++ w4 3
    ++ w4 1
    ++ w4 0x2028
    ++ w4 0x2034
    ++ w4 0x2038
    ++ w4 0x1010
    ++ w4 0
    ++ w4 0x1020
    ++ w4 0x2048
    ++ w2 2
    ++ zeros 6
    ++ codes "e.dll"
    ++ zeros 3
    ++ codes "run"
    ++ zeros 53

abbrev exporting : Image
exporting = record {
  base = 0x400000;
  bytes = head_bytes ++ opt_bytes ++ section_bytes 0x2000 ++ text_bytes ++ export_bytes;
}

abbrev tables : ExportTables
tables = record {
  base = 1;
  func_count = 3;
  name_count = 1;
  func_table = 0x230;
  name_table = 0x23c;
  ordinal_table = 0x240;
}

abbrev in_data : Globals
in_data = record {
  file_buff = some exporting;
  opt_head = some (record { into = exporting; offset = 0x58 });
  section_name = codes ".data";
  boxes = [];
}

exporting-HasTable : HasTable in_data exporting sections
unfolding nt_head first_section dword_at string_at
exporting-HasTable = record {
  nt = 0x40;
  first = 312;
  in_buffer = refl;
  nt_is = refl;
  count_is = refl;
  first_is = refl;
  decodes = (refl, refl, refl, refl, refl, (refl, refl, refl, refl, refl, tt));
}

directory : Directory exporting sections 0x208 tables
unfolding dword_at string_at locate_rva
directory = record {
  charact = 0;
  name_rva = 0x2040;
  name_foa = 0x248;
  name = codes "e.dll";
  func_rva = 0x2028;
  names_rva = 0x2034;
  ordinals_rva = 0x2038;
  charact_is = refl;
  name_rva_is = refl;
  name_moved = (data_section 0x2000, refl, refl);
  name_is = refl;
  base_is = refl;
  func_count_is = refl;
  name_count_is = refl;
  func_rva_is = refl;
  func_moved = (data_section 0x2000, refl, refl);
  names_rva_is = refl;
  names_moved = (data_section 0x2000, refl, refl);
  ordinals_rva_is = refl;
  ordinals_moved = (data_section 0x2000, refl, refl);
}

abbrev exports : List Export
exports =
    record { entry = 0x1010; foa = 0x198; name = codes "--" }
    ∷ record { entry = 0; foa = 0; name = [] }
    ∷ record { entry = 0x1020; foa = 0x1a8; name = codes "run" }
    ∷ []

exports-ExportsAt : ExportsAt exporting tables sections (2 ∷ []) 0 exports
unfolding dword_at string_at locate_rva
exports-ExportsAt = (
  refl,
  inr (refl, (text_section, refl, refl), refl),
  (
    refl,
    inl refl,
    (
      refl,
      inr (
        refl,
        (text_section, refl, refl),
        (0x2048, 0x250, refl, (data_section 0x2000, refl, refl), refl),
      ),
      tt,
    ),
  ),
)

begins : table_foa 0 (loaded exporting) ≡ some (0x208, in_data)
unfolding table_foa load_opt_head rva_to_foa rva_loop nt_head first_section dword_at string_at
    word_at
begins = refl

ordinal : OrdinalsAt exporting tables 0 (2 ∷ [])
unfolding OrdinalsAt word_at
ordinal = (refl, tt)

get_export_table_info-ExportsAt_example :
    (c' : List Row) × (g' : Globals) × (get_export_table_info listed [] (loaded exporting)
      ≡ some ((head_of exporting sections 0x208 tables directory, c'), g'))
    × (c' ≡ rows_of 1 0 exports)
get_export_table_info-ExportsAt_example =
    get_export_table_info-ExportsAt listed 0x208 tables (2 ∷ []) exports [] (loaded exporting)
      in_data exporting sections directory begins exporting-HasTable ordinal refl exports-ExportsAt
      refl refl
