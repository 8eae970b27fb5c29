-- ===== src/Tests/System.antt =====
-- The theorems on the lists of what runs, the services and the registry at small snapshots.
use mathlib.Core.List.{reverse_aux}
use process_manger_alpha.Base.{
  if◌then◌else◌, length, ℕ, ◌+◌, true, false, not, ◌==◌, Option, some, none, List, [], ◌∷◌, ◌++◌,
  ◌≡◌, inl, refl, arith, map, keep, reverse,
}
use process_manger_alpha.Text.{Text, codes, format_decimal, tcstol}
use process_manger_alpha.ListView.{Row, blank, row_of, is_marked}
use process_manger_alpha.ListView.Listed.{listed}
use process_manger_alpha.Tasks.Threads.{
  ThreadEntry, thread_texts, get_threads_info, on_rclick, on_command, open_thread, suspend_thread,
  resume_thread, terminate_thread, get_threads_info_lem, on_command-on_rclick,
}
use process_manger_alpha.Tasks.Heap.{
  HeapEntry, heap_texts, all_blocks, get_heap_info, get_heap_info_lem,
}
use process_manger_alpha.Tasks.Modules.{
  ModuleEntry, module_row, get_modules_info, get_modules_info_lem, Window, is_listed, enum_windows,
  enum_windows_lem,
}
use process_manger_alpha.Tasks.Blacklist.{
  ProcessEntry, Blacklist, IsCounted, on_dblclk, remove_chosen, kill_all, named_by,
  on_dblclk-IsCounted, remove_chosen-IsCounted, kill_all_lem,
}
use process_manger_alpha.Tasks.Processes as Processes
use process_manger_alpha.Tasks.Processes.{
  MainDialog, traverse_process, ended_by, path_text, traverse_process_lem,
  on_command-on_rclick_process,
}
use process_manger_alpha.Services.{
  Service, service_texts, ServList, start_service, stop_service, Manager, do_service,
}
use process_manger_alpha.Services as Services
use process_manger_alpha.Services.Menu.{opened_handles, do_service-closes, on_rclick-greyed}
use process_manger_alpha.Registry.StartUp as StartUps
use process_manger_alpha.Registry.StartUp.{
  current_user, local_machine, Value, Reported, value_row, do_delete, delete_value, message_box,
  do_delete_lem, StartUp, on_command-on_rclick_value,
}
use process_manger_alpha.Registry.Uninstall.{
  Software, Buffers, get_uni_soft_info, software_texts, do_uninstall, get_uni_soft_info_lem,
  do_uninstall_stale,
}

abbrev thread : ℕ → ℕ → ThreadEntry
thread owner id = record { owner = owner; id = id; priority = 8 }

abbrev threads : List ThreadEntry
threads = thread 4 10 ∷ thread 7 11 ∷ thread 4 12 ∷ []

get_threads_info_lem_applied :
    get_threads_info listed (format_decimal 4) threads []
    ≡ map (λ t. row_of (thread_texts t)) (keep (λ t. t.owner == 4) threads)
get_threads_info_lem_applied = get_threads_info_lem listed 4 threads [] (omega arith) refl

on_command-on_rclick_applied :
    let c = row_of (thread_texts (thread 4 10)) ∷ row_of (thread_texts (thread 4 12)) ∷ [] in
    (on_command 32776 (on_rclick listed 1 c) ≡ open_thread 12 ∷ suspend_thread 12 ∷ [])
    × (on_command 32777 (on_rclick listed 1 c) ≡ open_thread 12 ∷ resume_thread 12 ∷ [])
    × (on_command 32778 (on_rclick listed 1 c) ≡ open_thread 12 ∷ terminate_thread 12 ∷ [])
on_command-on_rclick_applied =
    on_command-on_rclick listed 1 (thread 4 12)
      (row_of (thread_texts (thread 4 10)) ∷ row_of (thread_texts (thread 4 12)) ∷ []) refl
      (omega arith)

abbrev pub heaps : ℕ → List (List HeapEntry)
heaps pid =
    (record { heap_id = pid; block_size = 16 } ∷ record { heap_id = pid; block_size = 32 } ∷ [])
    ∷ (record { heap_id = pid + 1; block_size = 8 } ∷ [])
    ∷ []

heaps_shown :
    get_heap_info listed heaps (codes "4") []
    ≡ map (λ h. row_of (heap_texts h)) (all_blocks (heaps (tcstol 10 (codes "4"))))
heaps_shown = get_heap_info_lem listed heaps (codes "4") [] refl

abbrev modules : ℕ → List ModuleEntry
modules pid =
    record { exe_path = codes "a"; base_address = pid; base_size = 1 }
    ∷ record { exe_path = codes "b"; base_address = 16; base_size = 2 }
    ∷ []

get_modules_info_lem_applied :
    get_modules_info listed modules (codes "4") []
    ≡ reverse (map module_row (modules (tcstol 10 (codes "4"))))
get_modules_info_lem_applied = get_modules_info_lem listed modules (codes "4") [] refl

abbrev windows : List Window
windows =
    record { visible = true; title = codes "w" }
    ∷ record { visible = false; title = codes "h" }
    ∷ []

windows_shown :
    enum_windows listed windows []
    ≡ reverse (map (λ w. row_of (w.title ∷ [])) (keep is_listed windows))
windows_shown = enum_windows_lem listed windows [] refl

abbrev process : ℕ → ProcessEntry
process id = record { id = id; exe_file = codes "p.exe" }

abbrev blacklist : Blacklist listed
blacklist = record {
  proc_list = row_of (codes "7" ∷ codes "p.exe" ∷ []) ∷ [];
  list =
      record { cells = codes "4" ∷ codes "p.exe" ∷ []; selected = false; checked = true }
      ∷ row_of (codes "7" ∷ codes "p.exe" ∷ [])
      ∷ [];
  count = 2;
}

on_dblclk-IsCounted_applied :
    IsCounted listed (on_dblclk listed 0 blacklist)
    × ((on_dblclk listed 0 blacklist).list
        ≡ blacklist.list ++ row_of (codes "7" ∷ codes "p.exe" ∷ []) ∷ [])
on_dblclk-IsCounted_applied = on_dblclk-IsCounted listed 0 blacklist refl

remove_chosen-IsCounted_applied :
    IsCounted listed (remove_chosen listed blacklist)
    × ((remove_chosen listed blacklist).list ≡ keep (λ r. not (is_marked r)) blacklist.list)
remove_chosen-IsCounted_applied = remove_chosen-IsCounted listed blacklist refl

kill_all_lem_applied :
    kill_all listed (process 4 ∷ process 5 ∷ process 7 ∷ []) blacklist
    ≡ named_by blacklist.list (process 4 ∷ process 5 ∷ process 7 ∷ [])
kill_all_lem_applied = kill_all_lem listed (process 4 ∷ process 5 ∷ process 7 ∷ []) blacklist refl

abbrev main_dialog : List Row → MainDialog listed
main_dialog rs = record { list = rs; row = 9; proc_id = [] }

abbrev full_path : ℕ → Text
full_path pid = if pid == 4 then codes "C:\\p.exe" else []

traverse_process_lem_applied :
    (traverse_process listed (process 4 ∷ process 5 ∷ []) threads full_path (main_dialog [])).list
    ≡ map
        (λ p. row_of (
          format_decimal p.id
          ∷ p.exe_file
          ∷ format_decimal (length (keep (λ t. t.owner == p.id) threads))
          ∷ path_text (full_path p.id)
          ∷ []))
        (process 4 ∷ process 5 ∷ [])
traverse_process_lem_applied =
    traverse_process_lem listed (process 4 ∷ process 5 ∷ []) threads full_path (main_dialog []) refl

on_command-on_rclick_process_example :
    let (d', outcome) =
      Processes.on_command listed 32773 (
        Processes.on_rclick listed 1 (main_dialog (blank ∷ row_of (format_decimal 5 ∷ []) ∷ []))) in
    (ended_by outcome ≡ some 5) × (d'.list ≡ blank ∷ [])
on_command-on_rclick_process_example =
    on_command-on_rclick_process listed 1 (process 5) [] 32773
      (main_dialog (blank ∷ row_of (format_decimal 5 ∷ []) ∷ [])) refl (omega arith)

abbrev manager : Manager
manager = record { opens_manager = true; opens_service = λ name. true; does = λ choice name. false }

do_service-closes_applied :
    let (done, closed) = do_service manager stop_service (codes "s") in
    (done ≡ false) × (closed ≡ opened_handles manager (codes "s"))
do_service-closes_applied = do_service-closes manager stop_service (codes "s")

abbrev stopped : Service
stopped = record { name = codes "s"; state = 1; kind = 16; start = 3; path = codes "s.exe" }

abbrev services : ServList listed
services = record {
  list = row_of (service_texts stopped) ∷ [];
  row = 0;
  service_name = [];
  service_status = [];
}

on_rclick-greyed_applied :
    let (d', choice) = Services.on_rclick listed 0 services in
    (d'.service_name ≡ codes "s") × (d'.row ≡ 0) × (choice ≡ stop_service)
on_rclick-greyed_applied = on_rclick-greyed listed 0 stopped services refl

abbrev value : Text → Value
value name = record { name = name; data_text = codes "x.exe" }

abbrev reported : Reported
reported current_user = some (value (codes "u") ∷ value (codes "w") ∷ [])
reported local_machine = some (value (codes "m") ∷ [])

do_delete_lem_applied :
    let (c', done) = do_delete listed reported reported (codes "z") [] in
    (done
      ≡ delete_value current_user (codes "z")
        ∷ message_box
        ∷ delete_value local_machine (codes "z")
        ∷ message_box
        ∷ [])
    × (c'
        ≡ value_row current_user (value (codes "w"))
          ∷ reverse_aux
              (map (value_row local_machine) (value (codes "m") ∷ []))
              (value_row current_user (value (codes "u")) ∷ []))
do_delete_lem_applied =
    do_delete_lem listed reported reported (codes "z") (value (codes "u") ∷ value (codes "w") ∷ [])
      (value (codes "m") ∷ []) (value_row current_user (value (codes "w")))
      (value_row current_user (value (codes "u")) ∷ []) [] refl refl refl

abbrev start_ups : StartUp listed
start_ups = record {
  list = value_row current_user (value (codes "z")) ∷ [];
  row = 3;
  boot_name = codes "old";
}

on_command-on_rclick_value_applied :
    let (d', done) =
      StartUps.on_command listed reported reported 32799 (StartUps.on_rclick listed 0 start_ups) in
    (done
      ≡ delete_value current_user (codes "z")
        ∷ message_box
        ∷ delete_value local_machine (codes "z")
        ∷ message_box
        ∷ [])
    × (d'.list
        ≡ value_row current_user (value (codes "w"))
          ∷ reverse_aux
              (map (value_row local_machine) (value (codes "m") ∷ []))
              (value_row current_user (value (codes "u")) ∷ []))
on_command-on_rclick_value_applied =
    on_command-on_rclick_value listed reported reported 0 current_user (value (codes "z"))
      (value (codes "u") ∷ value (codes "w") ∷ []) (value (codes "m") ∷ [])
      (value_row current_user (value (codes "w"))) (value_row current_user (value (codes "u")) ∷ [])
      start_ups refl refl refl refl

abbrev buffers : Text → Buffers
buffers s = record {
  soft_name = s;
  soft_uni_path = s;
  soft_ico = s;
  soft_ver = s;
  soft_ven_rel = s;
  soft_date = s;
  soft_ins_path = s;
}

abbrev software : Option Text → Text → Software
software uninstall s = record {
  display_name = some s;
  uninstall_string = uninstall;
  display_icon = some s;
  display_version = some s;
  publisher = some s;
  install_date = some s;
  install_location = some s;
}

software_shown :
    let (c', boxes) =
      get_uni_soft_info listed
        (inl (software (some (codes "a")) (codes "a") ∷ []))
        (buffers [])
        [] in
    c' ≡ map (λ b. row_of (software_texts b)) (buffers (codes "a") ∷ [])
software_shown =
    get_uni_soft_info_lem listed (software (some (codes "a")) (codes "a") ∷ [])
      (buffers (codes "a") ∷ []) (buffers []) [] refl
      ((refl, refl, refl, refl, refl, refl, refl), tt)

do_uninstall_stale_example :
    let (c', boxes) =
      get_uni_soft_info listed
        (inl (software (some (codes "a")) (codes "a") ∷ software none (codes "b") ∷ []))
        (buffers [])
        [] in
    do_uninstall listed 1 c' ≡ codes "a"
do_uninstall_stale_example =
    do_uninstall_stale listed (software (some (codes "a")) (codes "a")) (software none (codes "b"))
      (buffers []) [] refl refl refl
