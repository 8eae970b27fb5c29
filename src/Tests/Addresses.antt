-- ===== src/Tests/Addresses.antt =====
-- The theorems on addresses, headers and the calculator at the sample file.
use process_manger_alpha.Base.{
  ◌*◌, ℕ, ◌+◌, ◌%◌, ◌≢◌, inl, true, false, some, none, List, [], ◌∷◌, ◌++◌, ◌≡◌, refl, arith, map,
}
use process_manger_alpha.Text.{codes, upper, format_hex, long_max, tcstol}
use process_manger_alpha.ListView.{Row}
use process_manger_alpha.ListView.Listed.{listed}
use process_manger_alpha.Pe.Image.{Image, byte_at, word_at, dword_at}
use process_manger_alpha.Pe.Globals.{Globals, ◌>>=◌}
use process_manger_alpha.Pe.Address.{rva_to_foa, foa_to_rva, sub_dword}
use process_manger_alpha.Pe.Address.Table.{
  HasTable, report, foa_in, rva_in, locate_rva, located_from_first, rva_to_foa-locate_rva,
  foa_to_rva-locate_foa,
}
use process_manger_alpha.Pe.Address.Layout.{
  rva_to_foa-in_section, rva_to_foa_touching, foa_to_rva-rva_to_foa, foa_to_rva_shadowed,
}
use process_manger_alpha.Pe.AddressCalc.{
  Calculator, image_base, from_va, from_rva, show_place, calculate, choose_foa,
}
use process_manger_alpha.Pe.AddressCalc.Modes.{Agrees, rva, choose, choose-Agrees}
use process_manger_alpha.Pe.AddressCalc.Results.{dump, from_va-from_rva, from_va_saturates}
use process_manger_alpha.Pe.AddressCalc.Trip.{calculate-choose_foa}
use process_manger_alpha.Pe.FileDialog.{
  PeFileDialog, no_texts, Tm, open_file, choose_file, open_tool, get_section_head_info,
}
use process_manger_alpha.Pe.FileDialog.Sections.{section_row, get_section_head_info_lem}
use process_manger_alpha.Pe.FileDialog.Opening.{NotPe, open_file_refused, choose_file-open_file}
use process_manger_alpha.Tests.Sample.{
  sample, file, sections, loaded, text_section, data_section, file-HasTable, touching-HasTable,
}

rva_to_foa-in_section_example :
    rva_to_foa 0x2010 (loaded file)
    ≡ some (0x218, record (loaded file) { section_name = codes ".data" })
rva_to_foa-in_section_example =
    rva_to_foa-in_section 0x2010 (text_section ∷ []) [] (data_section 0x2000) (loaded file)
      file-HasTable
      ((omega arith, omega arith), (omega arith, tt), ((omega arith, omega arith), tt, tt))
      (omega arith) (omega arith)

foa_to_rva-rva_to_foa_example :
    (foa : ℕ) × (g' : Globals) × (rva_to_foa 0x1010 (loaded file) ≡ some (foa, g'))
    × (foa_to_rva foa g' ≡ some (0x1010, g'))
foa_to_rva-rva_to_foa_example =
    foa_to_rva-rva_to_foa 0x1010 text_section (data_section 0x2000 ∷ []) (loaded file) file-HasTable
      (omega arith, omega arith) (omega arith) (omega arith) (omega arith)

rva_to_foa-locate_rva_applied :
    rva_to_foa 0x1090 (loaded file)
    ≡ report (foa_in 0x1090) (locate_rva 0x1090 sections) (loaded file)
rva_to_foa-locate_rva_applied = rva_to_foa-locate_rva 0x1090 sections (loaded file) file-HasTable

foa_to_rva-locate_foa_applied :
    foa_to_rva 0x210 (loaded file)
    ≡ report (rva_in 0x210) (located_from_first 0x210 sections) (loaded file)
foa_to_rva-locate_foa_applied =
    foa_to_rva-locate_foa 0x210 text_section (data_section 0x2000 ∷ []) (loaded file) file-HasTable

rva_to_foa_touching_applied :
    rva_to_foa 0x1080 (loaded (sample 16 0x1080))
    ≡ some (0x208, record (loaded (sample 16 0x1080)) { section_name = codes ".text" })
rva_to_foa_touching_applied =
    rva_to_foa_touching text_section (data_section 0x1080) [] (loaded (sample 16 0x1080))
      touching-HasTable (omega arith, omega arith) refl

foa_to_rva_shadowed_applied :
    (foa_to_rva 0x210 (loaded file)
      ≡ some (0x1088, record (loaded file) { section_name = codes ".text" }))
    × (◌≢◌ {A = ℕ} 0x1088 0x2008)
foa_to_rva_shadowed_applied =
    foa_to_rva_shadowed 0x210 text_section (data_section 0x2000) [] (loaded file) file-HasTable
      (omega arith, omega arith) (omega arith, omega arith) (omega arith) (omega arith)
      (omega arith) (omega arith) (omega arith) (omega arith)

get_section_head_info_lem_applied :
    (c' : List Row) × (get_section_head_info listed [] (loaded file) ≡ some (c', loaded file))
    × (c' ≡ map section_row sections)
get_section_head_info_lem_applied =
    get_section_head_info_lem listed sections [] (loaded file) file-HasTable

abbrev not_pe : Image
not_pe = record { base = 0; bytes = codes "hello" }

not_pe-NotPe : NotPe not_pe
unfolding NotPe word_at
not_pe-NotPe = inl (0x6568, refl, refl)

abbrev empty_dialog : PeFileDialog listed
empty_dialog = record { section_list = []; texts = no_texts }

abbrev some_time : ℕ → Tm
some_time n = record { year = 100; month = 0; day = 1; hour = n % 24; minute = 0; second = 0 }

abbrev refused : Globals
refused = record {
  file_buff = some not_pe;
  opt_head = none;
  section_name = [];
  boxes = codes "这不是一个PE文件" ∷ [];
}

open_file-refused_applied :
    (open_file listed some_time not_pe empty_dialog (loaded file) ≡ some (empty_dialog, refused))
    × (open_tool refused ≡ some (true, refused))
open_file-refused_applied =
    open_file_refused listed some_time not_pe empty_dialog (loaded file) not_pe-NotPe

choose_file-open_file_applied :
    choose_file listed some_time
      (some (codes "hello"))
      (λ n. some (n * 16))
      empty_dialog
      (loaded file)
    ≡ open_file listed some_time
        (record { base = 80; bytes = codes "hello" })
        empty_dialog
        (loaded file)
choose_file-open_file_applied =
    choose_file-open_file listed some_time (codes "hello") (λ n. some (n * 16)) 80 empty_dialog
      (loaded file) (omega arith) refl

abbrev calculator : Calculator
calculator = record {
  active = 1;
  va_read_only = false;
  rva_read_only = true;
  foa_read_only = true;
  va_text = [];
  rva_text = [];
  foa_text = [];
  section_text = [];
  bytes_text = [];
}

rva_chosen : Agrees (choose rva calculator)
rva_chosen = choose-Agrees rva calculator

abbrev viewed : Globals
viewed = record (loaded file) { opt_head = some (record { into = file; offset = 0x58 }) }

from_va-from_rva_example :
    from_va (record calculator { va_text = format_hex upper (0x1010 + 0x400000) }) viewed
    ≡ from_rva (record calculator { rva_text = format_hex upper 0x1010 }) viewed
unfolding image_base dword_at
from_va-from_rva_example = from_va-from_rva 0x1010 0x400000 calculator viewed refl (omega arith)

from_va_saturates_applied :
    from_va (record calculator { va_text = format_hex upper 0x80001000 }) viewed
    ≡ (do
      foa ← rva_to_foa (sub_dword long_max 0x400000)
      show_place foa (record calculator {
        va_text = format_hex upper 0x80001000;
        rva_text = format_hex upper (sub_dword long_max 0x400000);
        foa_text = format_hex upper foa;
      }))
        viewed
unfolding image_base dword_at
from_va_saturates_applied =
    from_va_saturates 0x80001000 calculator viewed refl (omega arith) (omega arith)

abbrev asked : Calculator
asked = record calculator { active = 2; rva_text = codes "1010"; bytes_text = codes "FF " }

viewed-HasTable : HasTable viewed file sections
viewed-HasTable = record {
  nt = file-HasTable.nt;
  first = file-HasTable.first;
  in_buffer = refl;
  nt_is = file-HasTable.nt_is;
  count_is = file-HasTable.count_is;
  first_is = file-HasTable.first_is;
  decodes = file-HasTable.decodes;
}

calculate-choose_foa_example :
    (d' d'' : Calculator) × (g' : Globals) × (calculate asked viewed ≡ some (d', g'))
    × (calculate (record (choose_foa d') { foa_text = d'.foa_text }) g' ≡ some (d'', g'))
    × (d''.rva_text ≡ format_hex upper 0x1010)
    × (d''.va_text ≡ d'.va_text)
    × (d''.section_text ≡ d'.section_text)
    × (d'.bytes_text ≡ codes "FF " ++ d''.bytes_text)
unfolding dword_at dump tcstol byte_at
calculate-choose_foa_example =
    calculate-choose_foa 0x1010 0x400000 text_section (data_section 0x2000 ∷ []) asked viewed
      viewed-HasTable (omega arith, omega arith) (omega arith) (omega arith) (omega arith)
      (omega arith) refl refl refl refl refl
