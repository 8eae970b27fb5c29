-- ===== src/Tests/Endings.antt =====
-- Loops that end, and one that does not, at the sample file; a session of the blacklist.
use process_manger_alpha.Base.{◌-◌, ◌≡◌, refl, List, [], ◌∷◌, ◌++◌, arith, false, true}
use process_manger_alpha.Text.{codes, dword_mod, tcstol}
use process_manger_alpha.ListView.{Row, row_of}
use process_manger_alpha.ListView.Listed.{listed}
use process_manger_alpha.Pe.Image.{Image, dword_at, word_at, string_at}
use process_manger_alpha.Pe.Globals.{Action, Globals, pure}
use process_manger_alpha.Pe.Headers.{nt_head, first_section}
use process_manger_alpha.Pe.Address.{rva_to_foa}
use process_manger_alpha.Pe.Tables.{table_foa}
use process_manger_alpha.Pe.Imports.{get_import_table_info, get_func_info}
use process_manger_alpha.Pe.Imports.Ending.{
  module_rounds, func_rounds, get_import_table_info-ends, get_func_info-ends,
}
use process_manger_alpha.Pe.Relocations.{RelocGlobals}
use process_manger_alpha.Tasks.Blacklist.{Blacklist, on_dblclk, remove_chosen, kill_all}
use process_manger_alpha.Tasks.Blacklist.Steps.{opens, chooses, removes, marks, kill_all-Steps}
use process_manger_alpha.Tests.Sample.{w4, file, loaded}
use process_manger_alpha.Tests.Tables.{in_text}

-- Something that the loops do not come to.
abbrev emptied : List Row → Action (List Row)
emptied c = pure []

get_import_table_info-ends_applied :
    get_import_table_info listed 1000 [] (loaded file)
    ≡ module_rounds listed emptied 1000 file 392 0 [] in_text
unfolding table_foa rva_to_foa nt_head first_section dword_at word_at string_at
get_import_table_info-ends_applied =
    get_import_table_info-ends listed emptied 1000 [] (loaded file) in_text refl refl (omega arith)
      (omega arith) (omega arith)

get_func_info-ends_applied :
    get_func_info listed 1000 0x1030 [] in_text
    ≡ func_rounds listed emptied 1000 file 0x1030 440 0 [] in_text
unfolding rva_to_foa nt_head first_section dword_at word_at string_at
get_func_info-ends_applied =
    get_func_info-ends listed emptied 1000 0x1030 [] in_text in_text refl refl (omega arith)
      (omega arith) (omega arith)

-- Two blocks of 8 bytes: the second has the size that leads back to the first.
abbrev circular : Image
circular = record { base = 0x400000; bytes = w4 0x1000 ++ w4 8 ++ w4 0x1000 ++ w4 (dword_mod - 8) }

abbrev no_blocks : RelocGlobals
no_blocks = record { base_rva = 0; real_va = 0; dp_map = [] }

-- A session of the blacklist: the process 7 is chosen twice, and one of its rows is removed.
abbrev opened_dialog : Blacklist listed
opened_dialog = record {
  proc_list = row_of (codes "7" ∷ codes "p.exe" ∷ []) ∷ [];
  list = [];
  count = 0;
}

abbrev marked_rows : List Row
marked_rows =
    record { cells = codes "7" ∷ codes "p.exe" ∷ []; selected = false; checked = true }
    ∷ row_of (codes "7" ∷ codes "p.exe" ∷ [])
    ∷ []

abbrev marked_dialog : Blacklist listed
marked_dialog = record (on_dblclk listed 0 (on_dblclk listed 0 opened_dialog)) {
  list = marked_rows;
}

kill_all-Steps_example :
    ((remove_chosen listed marked_dialog).list ≡ row_of (codes "7" ∷ codes "p.exe" ∷ []) ∷ [])
    × (kill_all listed
          (record { id = 4; exe_file = codes "a" }
            ∷ record { id = 7; exe_file = codes "p.exe" }
            ∷ [])
          (remove_chosen listed marked_dialog)
        ≡ 7 ∷ [])
unfolding tcstol on_dblclk remove_chosen
kill_all-Steps_example =
    kill_all-Steps listed (remove_chosen listed marked_dialog)
      (record { id = 4; exe_file = codes "a" } ∷ record { id = 7; exe_file = codes "p.exe" } ∷ [])
      (removes (marks marked_rows refl (chooses 0 (chooses 0 (opens refl refl)))))
