-- ===== src/Tasks/Processes.antt =====
-- The list of processes in the main dialog, and the menu on it:
-- ProcessMangerAlpha/ProcessMangerAlphaDlg.cpp. The snapshots are lists of entries, and the path of a
-- process (empty when it may not be opened) is a parameter. A click beside the rows is left out.
use process_manger_alpha.Base.{
  ℕ, suc, ◌+◌, ◌<◌, ◌==◌, Bool-cases, inl, inr, Option, none, some, List, [], ◌∷◌, ◌≡◌, refl, ap,
  ◌∙◌, arith, if◌then◌else◌, length, map, keep, get_elem?, remove_at,
}
use process_manger_alpha.Text.{Text, codes, format_decimal, tcstol, dword_mod}
use process_manger_alpha.Text.RoundTrip.{tcstol-format_decimal}
use process_manger_alpha.ListView.{ListView, row_of}
use process_manger_alpha.ListView.Fill.{fill_rows, rows-fill_rows}
use process_manger_alpha.Tasks.Threads.{ThreadEntry}
use process_manger_alpha.Tasks.Blacklist.{ProcessEntry}

-- The loop of `getThreadsCountByProcID`, with what has been counted.
unfoldable pub count_threads : ℕ → List ThreadEntry → ℕ → ℕ
count_threads proc_id [] count = count
count_threads proc_id (t ∷ ts) count =
    count_threads proc_id ts (if t.owner == proc_id then suc count else count)

unfoldable pub get_threads_count : List ThreadEntry → ℕ → Text
unfolding count_threads
get_threads_count threads proc_id = format_decimal (count_threads proc_id threads 0)

-- The last column: the path of the process, or that it may not be asked for.
abbrev pub path_text : Text → Text
path_text path = if length path == 0 then codes "权限不够哦亲，查不到~" else path

abbrev pub process_texts : List ThreadEntry → (ℕ → Text) → ProcessEntry → List Text
process_texts threads full_path p =
    format_decimal p.id
    ∷ p.exe_file
    ∷ get_threads_count threads p.id
    ∷ path_text (full_path p.id)
    ∷ []

-- What a command of the menu does: it opens one of three dialogs, ends a process, or shows a message.
pub data Outcome : Type 0 where
  threads_dialog modules_dialog heap_dialog message nothing : Outcome
  terminated : ℕ → Outcome

abbrev pub ended_by : Outcome → Option ℕ
ended_by (terminated pid) = some pid
ended_by _ = none

count_threads-keep :
    (proc_id : ℕ) (ts : List ThreadEntry) (count : ℕ)
    → count_threads proc_id ts count ≡ count + length (keep (λ t. t.owner == proc_id) ts)
unfolding count_threads
count_threads-keep proc_id [] count = omega arith
count_threads-keep proc_id (t ∷ ts) count = elim (Bool-cases (t.owner == proc_id)) [
  | inl own ↦ rw (count_threads, own) (count_threads-keep proc_id ts (suc count) ∙ omega arith)
  | inr other ↦ rw (count_threads, other) (count_threads-keep proc_id ts count)
]

module _ (v : ListView) where
  open v use {Ctrl, rows, get_item_text, delete_item, get_item_text_lem, rows-delete_item}

  pub record MainDialog : Type 0 where
    pub list : Ctrl
    -- nRow and g_ProcID
    pub row : ℕ
    pub proc_id : Text

  unfoldable pub traverse_process :
      List ProcessEntry → List ThreadEntry → (ℕ → Text) → MainDialog → MainDialog
  traverse_process snapshot threads full_path d = record d {
    list = fill_rows v (process_texts threads full_path) 0 snapshot d.list;
  }

  -- OnRclickList1, at the row that was clicked
  unfoldable pub on_rclick : ℕ → MainDialog → MainDialog
  on_rclick row d = record d { row = row; proc_id = get_item_text row 0 d.list }

  -- OnCommandRangePMenu: the commands ID_32771 to ID_32775. Whether TerminateProcess succeeds is not
  -- looked at.
  unfoldable pub on_command : ℕ → MainDialog → MainDialog × Outcome
  on_command n_id d =
      if n_id == 32771
      then (d, threads_dialog)
      else if n_id == 32772
      then (d, modules_dialog)
      else if n_id == 32773
      then (record d { list = delete_item d.row d.list }, terminated (tcstol 10 d.proc_id))
      else if n_id == 32774
      then (d, heap_dialog)
      else if n_id == 32775
      then (d, message)
      else (d, nothing)

  -- The empty list is filled with the processes of the snapshot, in order, each with its number, its
  -- name, the number of the threads that it owns, and its path, or a text instead of an empty path.
  pub traverse_process_lem :
      (snapshot : List ProcessEntry) (threads : List ThreadEntry) (full_path : ℕ → Text)
      (d : MainDialog)
      → rows d.list ≡ []
      → rows (traverse_process snapshot threads full_path d).list
        ≡ map
            (λ p. row_of (
              format_decimal p.id
              ∷ p.exe_file
              ∷ format_decimal (length (keep (λ t. t.owner == p.id) threads))
              ∷ path_text (full_path p.id)
              ∷ []))
            snapshot
  unfolding traverse_process get_threads_count
  traverse_process_lem snapshot threads full_path d e =
      rows-fill_rows v (process_texts threads full_path) 0 snapshot d.list (rw e refl)
      ∙ rw e (
          ap (λ f. map f snapshot)
            (λ i p. row_of (
              format_decimal p.id
              ∷ p.exe_file
              ∷ format_decimal (counted p i)
              ∷ path_text (full_path p.id)
              ∷ [])))
    where
      counted :
          (p : ProcessEntry)
          → count_threads p.id threads 0 ≡ length (keep (λ t. t.owner == p.id) threads)
      counted p = count_threads-keep p.id threads 0 ∙ omega arith

  -- A right click on the row of a process with a number below 2 ^ 32 and a command of the menu: the
  -- command that ends a process ends the one of the row and takes the row away, and any other ends
  -- none and leaves the rows alone.
  pub on_command-on_rclick_process :
      (row : ℕ) (p : ProcessEntry) (texts : List Text) (n_id : ℕ) (d : MainDialog)
      → get_elem? (rows d.list) row ≡ some (row_of (format_decimal p.id ∷ texts))
      → p.id < dword_mod
      → let (d', outcome) = on_command n_id (on_rclick row d) in
        (ended_by outcome ≡ (if n_id == 32773 then some p.id else none))
        × (rows d'.list ≡ (if n_id == 32773 then remove_at row (rows d.list) else rows d.list))
  unfolding on_command on_rclick
  on_command-on_rclick_process row p texts n_id d e h =
      let text : get_item_text row 0 d.list ≡ format_decimal p.id =
        get_item_text_lem row 0 d.list ∙ rw e refl in
      let id : tcstol 10 (get_item_text row 0 d.list) ≡ p.id =
        ap (tcstol 10) text ∙ tcstol-format_decimal p.id h in
      let gone = rows-delete_item row d.list in ground arith
