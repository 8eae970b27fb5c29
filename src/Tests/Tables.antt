-- ===== src/Tests/Tables.antt =====
-- The theorems on the tables of the data directory at the sample file.
use process_manger_alpha.Base.{
  ℕ, inl, inr, some, none, List, [], ◌∷◌, ◌++◌, ◌≡◌, refl, arith, replicate, map, keep,
}
use process_manger_alpha.Text.{Text, codes, format_hex_padded, tcstol}
use process_manger_alpha.ListView.{Row, row_of}
use process_manger_alpha.ListView.Listed.{listed}
use process_manger_alpha.Pe.Image.{word_at, dword_at, string_at}
use process_manger_alpha.Pe.Globals.{Globals}
use process_manger_alpha.Pe.Headers.{nt_head, first_section}
use process_manger_alpha.Pe.Address.{rva_to_foa}
use process_manger_alpha.Pe.Tables.{table_foa}
use process_manger_alpha.Pe.Directories.{init_directories, on_bn_clicked, button1, export_table}
use process_manger_alpha.Pe.Directories.Buttons.{on_bn_clicked_opens}
use process_manger_alpha.Pe.Directories.Exchange.{
  do_data_exchange, reloc_dir, do_data_exchange-init_directories,
}
use process_manger_alpha.Pe.Directories.Boxes.{
  HasEntries, Shows, init_directories_lem, init_directories_overflow,
}
use process_manger_alpha.Pe.Imports.{get_import_table_info, show_functions, thunk_texts}
use process_manger_alpha.Pe.Imports.Rows.{
  Descriptor, DescriptorsAt, descriptor_row, Thunk, ThunksAt, thunk_rows_of,
  get_import_table_info_lem, show_functions_lem,
}
use process_manger_alpha.Pe.Exports.{ExportTables, find_ordinal, export_texts, export_rows}
use process_manger_alpha.Pe.Exports.Rows.{
  OrdinalsAt, first_place, find_ordinal-first_place, Function, is_used, FunctionsAt, function_row,
  rows-export_rows,
}
use process_manger_alpha.Pe.Relocations.{RelocGlobals, get_reloc_table_info, show_block}
use process_manger_alpha.Pe.Relocations.Blocks.{Block, BlocksAt, block_rows_of}
use process_manger_alpha.Pe.Relocations.Entries.{
  EntriesAt, entry_rows_of, get_reloc_table_info_lem, show_block_lem,
}
use process_manger_alpha.Tests.Sample.{sample, file, loaded}

abbrev entries : List (ℕ × ℕ)
entries =
    (0, 0)
    ∷ (0x1000, 40)
    ∷ (0, 0)
    ∷ (0, 0)
    ∷ (0, 0)
    ∷ (0x2000, 12)
    ∷ (0, 0)
    ∷ (0, 0)
    ∷ (0, 0)
    ∷ (0, 0)
    ∷ (0, 0)
    ∷ (0, 0)
    ∷ (0, 0)
    ∷ (0, 0)
    ∷ (0, 0)
    ∷ (0, 0)
    ∷ []

abbrev no_boxes : List Text
no_boxes = replicate 32 []

file-HasEntries : HasEntries file 0x58 0 entries
unfolding dword_at
file-HasEntries = (
  refl,
  refl,
  (
    refl,
    refl,
    (
      refl,
      refl,
      (
        refl,
        refl,
        (
          refl,
          refl,
          (
            refl,
            refl,
            (
              refl,
              refl,
              (
                refl,
                refl,
                (
                  refl,
                  refl,
                  (
                    refl,
                    refl,
                    (
                      refl,
                      refl,
                      (refl, refl, (refl, refl, (refl, refl, (refl, refl, (refl, refl, tt))))),
                    ),
                  ),
                ),
              ),
            ),
          ),
        ),
      ),
    ),
  ),
)

init_directories_lem_applied :
    (boxes' : List Text) × (g' : Globals) × (init_directories no_boxes (loaded file)
      ≡ some (boxes', g'))
    × Shows boxes' 0 entries
unfolding nt_head dword_at
init_directories_lem_applied =
    init_directories_lem entries no_boxes (loaded file) refl refl refl file-HasEntries refl
      (omega arith)

do_data_exchange-init_directories_example :
    (boxes' : List Text) × (g' : Globals) × (init_directories no_boxes (loaded file)
      ≡ some (boxes', g'))
    × (do_data_exchange boxes' reloc_dir
        ≡ record { rva = format_hex_padded 8 0x2000; size = format_hex_padded 8 12 })
unfolding nt_head dword_at
do_data_exchange-init_directories_example =
    do_data_exchange-init_directories reloc_dir entries (0x2000, 12) no_boxes (loaded file) refl
      refl refl refl file-HasEntries refl (omega arith)

init_directories_overflow_applied : init_directories no_boxes (loaded (sample 17 0x2000)) ≡ none
unfolding nt_head dword_at
init_directories_overflow_applied =
    init_directories_overflow no_boxes (loaded (sample 17 0x2000)) refl refl refl refl (omega arith)

abbrev zero_boxes : List Text
zero_boxes = replicate 32 (format_hex_padded 8 0)

zero_exports_open :
    on_bn_clicked button1 zero_boxes (loaded file) ≡ some (some export_table, loaded file)
zero_exports_open = on_bn_clicked_opens button1 0 zero_boxes (loaded file) refl

abbrev pub in_text : Globals
in_text = record {
  file_buff = some file;
  opt_head = some (record { into = file; offset = 0x58 });
  section_name = codes ".text";
  boxes = [];
}

abbrev in_data : Globals
in_data = record in_text { section_name = codes ".data" }

abbrev a_dll : Descriptor
a_dll = record {
  name = codes "a.dll";
  int_rva = 0x1050;
  stamp = 0;
  chain = 0;
  name_rva = 0x1028;
  iat_rva = 0x1030;
}

get_import_table_info_lem_example :
    (c' : List Row) × (get_import_table_info listed 2 [] (loaded file) ≡ some (c', in_text))
    × (c' ≡ map descriptor_row (a_dll ∷ []))
unfolding table_foa rva_to_foa nt_head first_section dword_at word_at string_at DescriptorsAt
get_import_table_info_lem_example =
    get_import_table_info_lem listed 2 (a_dll ∷ []) [] (loaded file) in_text in_text refl refl
      (432, in_text, refl, refl, refl, refl, refl, refl, refl, refl, (refl, refl)) (omega arith)
      refl

abbrev by_ordinal : Thunk
by_ordinal = record { value = 0x80000005; named = codes "-.-" ∷ codes "Ordinal: 00000005" ∷ [] }

show_functions_lem_example :
    (c' : List Row) × (show_functions listed 2 0 (descriptor_row a_dll ∷ []) [] (loaded file)
      ≡ some (c', record (loaded file) { section_name = codes ".text" }))
    × (c' ≡ thunk_rows_of 0x1030 440 (by_ordinal ∷ []))
unfolding rva_to_foa nt_head first_section dword_at word_at string_at ThunksAt thunk_texts
    format_hex_padded
show_functions_lem_example =
    show_functions_lem listed 2 0 (a_dll ∷ []) (by_ordinal ∷ []) (descriptor_row a_dll ∷ []) []
      (loaded file) (record (loaded file) { section_name = codes ".text" })
      (record (loaded file) { section_name = codes ".text" }) refl refl (omega arith) refl refl
      (record (loaded file) { section_name = codes ".text" }, refl, refl, refl, (refl, refl))
      (omega arith)

-- The function 0 has an address and no name that is numbered 0 before the second place; the function
-- 1 is unused.
abbrev tables : ExportTables
tables = record {
  base = 1;
  func_count = 2;
  name_count = 2;
  func_table = 540;
  name_table = 548;
  ordinal_table = 548;
}

find_ordinal-first_place_applied :
    find_ordinal file tables 0 2 0 (loaded file) ≡ some (first_place 0 0 (7 ∷ 0 ∷ []), loaded file)
unfolding OrdinalsAt word_at
find_ordinal-first_place_applied =
    find_ordinal-first_place file tables 0 0 (7 ∷ 0 ∷ []) (loaded file) (refl, (refl, tt))

abbrev named_function : Function
named_function = record {
  entry = 0x1004;
  texts = codes "0001" ∷ codes "00001004" ∷ codes "0000018C" ∷ codes "a.dll" ∷ [];
}

abbrev unused_function : Function
unused_function = record { entry = 0; texts = [] }

rows-export_rows_applied :
    (c' : List Row) × (export_rows listed file tables 2 0 0 [] (loaded file)
      ≡ some (c', record (loaded file) { section_name = codes ".text" }))
    × (c' ≡ [] ++ map function_row (keep is_used (named_function ∷ unused_function ∷ [])))
unfolding FunctionsAt export_texts rva_to_foa nt_head first_section dword_at word_at string_at
    format_hex_padded
rows-export_rows_applied =
    rows-export_rows listed file tables 0 0 (named_function ∷ unused_function ∷ []) [] (loaded file)
      (record (loaded file) { section_name = codes ".text" })
      (
        record (loaded file) { section_name = codes ".text" },
        refl,
        inr (refl, refl),
        (record (loaded file) { section_name = codes ".text" }, refl, inl (refl, refl), refl),
      )
      refl

abbrev no_blocks : RelocGlobals
no_blocks = record { base_rva = 0; real_va = 0; dp_map = [] }

abbrev a_block : Block
a_block = record { rva = 0x1000; foa = 0x188; size = 12; name = codes ".text" }

get_reloc_table_info_lem_example :
    (s' : RelocGlobals) × (c' : List Row) × (get_reloc_table_info listed 2 no_blocks []
        (loaded file)
      ≡ some ((s', c'), in_text))
    × (c' ≡ block_rows_of 0 (a_block ∷ []))
    × (s'.base_rva ≡ 0x1000)
    × (s'.real_va ≡ 0x188)
unfolding table_foa rva_to_foa nt_head first_section dword_at word_at string_at BlocksAt
get_reloc_table_info_lem_example =
    get_reloc_table_info_lem listed 2 [] a_block no_blocks [] (loaded file) in_data in_text refl
      refl (in_text, refl, refl, refl, refl, (refl, refl)) (omega arith) refl

-- The globals and the list as another block, read later, has left them.
abbrev later : RelocGlobals
later = record {
  base_rva = 0x2000;
  real_va = 0x208;
  dp_map = (0x188, record { into = file; offset = 520 }) ∷ [];
}

abbrev block_list : List Row
block_list = row_of (codes "1" ∷ codes ".text" ∷ codes "00000188" ∷ codes "2h / 2d" ∷ []) ∷ []

show_block_lem_example :
    (c' : List Row) × (show_block listed 0 later block_list [] (loaded file)
      ≡ some (c', loaded file))
    × (c' ≡ entry_rows_of later 0x400000 0 (record { word = 0x3010; value = 0 } ∷ []))
unfolding dword_at word_at EntriesAt tcstol format_hex_padded
show_block_lem_example =
    show_block_lem listed 0 (record { word = 0x3010; value = 0 } ∷ []) later block_list []
      (loaded file) refl refl refl (refl, refl, refl, (0, refl, refl, tt))
