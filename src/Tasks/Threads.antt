-- ===== src/Tasks/Threads.antt =====
-- The threads of a process: ProcessMangerAlpha/CThreadsDialog.cpp.
use process_manger_alpha.Base.{
  ℕ, suc, ◌<◌, ◌==◌, Bool-cases, inl, inr, List, [], ◌∷◌, ◌++◌, ◌≡◌, refl, sym, ap, ◌∙◌, arith,
  if◌then◌else◌, length, length-append, map, keep, append_assoc, append-nil, some, get_elem?,
}
use process_manger_alpha.Text.{Text, format_decimal, tcstol, dword_mod}
use process_manger_alpha.Text.RoundTrip.{tcstol-format_decimal}
use process_manger_alpha.ListView.{ListView, row_of}
use process_manger_alpha.ListView.Rows.{insert_row, rows-insert_row_last}

pub record ThreadEntry : Type 0 where
  pub owner : ℕ
  pub id : ℕ
  pub priority : ℕ

abbrev pub thread_texts : ThreadEntry → List Text
thread_texts t = format_decimal t.id ∷ format_decimal t.priority ∷ []

-- What the menu asks the system for.
pub data Call : Type 0 where
  open_thread suspend_thread resume_thread terminate_thread : ℕ → Call

-- OnCommandRangeTMenu: the commands ID_32776 to ID_32778, for the thread that `g_ThreadID` names.
unfoldable pub on_command : ℕ → Text → List Call
on_command n_id thread_id =
    let id = tcstol 10 thread_id in
    open_thread id
    ∷ (if n_id == 32776
        then suspend_thread id ∷ []
        else if n_id == 32777
        then resume_thread id ∷ []
        else if n_id == 32778
        then terminate_thread id ∷ []
        else [])

module _ (v : ListView) where
  open v use {Ctrl, rows, get_item_text, get_item_text_lem}

  -- The loop over the snapshot.
  unfoldable pub thread_rows : ℕ → ℕ → List ThreadEntry → Ctrl → Ctrl
  thread_rows pid i [] c = c
  thread_rows pid i (t ∷ ts) c =
      let (i', c') =
        if t.owner == pid then (suc i, insert_row v i (thread_texts t) c) else (i, c) in
      thread_rows pid i' ts c'

  -- getThreadsInfoByProcID
  unfoldable pub get_threads_info : Text → List ThreadEntry → Ctrl → Ctrl
  unfolding thread_rows
  get_threads_info proc_id snapshot c = thread_rows (tcstol 10 proc_id) 0 snapshot c

  -- OnRclickList2: the text that `g_ThreadID` becomes.
  unfoldable pub on_rclick : ℕ → Ctrl → Text
  on_rclick row c = get_item_text row 0 c

  rows-thread_rows :
      (pid i : ℕ) (ts : List ThreadEntry) (c : Ctrl)
      → i ≡ length (rows c)
      → rows (thread_rows pid i ts c)
        ≡ rows c ++ map (λ t. row_of (thread_texts t)) (keep (λ t. t.owner == pid) ts)
  unfolding thread_rows
  rows-thread_rows pid i [] c e = sym (append-nil (rows c))
  rows-thread_rows pid i (t ∷ ts) c e = elim (Bool-cases (t.owner == pid)) [
    | inl own ↦
        let shown = rows-insert_row_last v i (thread_texts t) c e in
        rw (thread_rows, own)
          (rows-thread_rows pid (suc i) ts (insert_row v i (thread_texts t) c) (
              omega (arith, ap length shown, length-append (rows c) (row_of (thread_texts t) ∷ [])))
            ∙ rw shown (append_assoc (rows c) (row_of (thread_texts t) ∷ []) _))
    | inr other ↦ rw (thread_rows, other) (rows-thread_rows pid i ts c e)
  ]

  -- For the process that the list of processes names by its number, below 2 ^ 32, the empty list is
  -- filled with the threads of the snapshot that this process owns, in order, and no others.
  pub get_threads_info_lem :
      (pid : ℕ) (snapshot : List ThreadEntry) (c : Ctrl)
      → pid < dword_mod
      → rows c ≡ []
      → rows (get_threads_info (format_decimal pid) snapshot c)
        ≡ map (λ t. row_of (thread_texts t)) (keep (λ t. t.owner == pid) snapshot)
  unfolding get_threads_info
  get_threads_info_lem pid snapshot c h e =
      rw (tcstol-format_decimal pid h) (rows-thread_rows pid 0 snapshot c (rw e refl) ∙ rw e refl)

  -- A right click on the row of a thread with a number below 2 ^ 32 and a command of the menu act
  -- on this thread, and do what the command says: suspend, resume or end it.
  pub on_command-on_rclick :
      (row : ℕ) (t : ThreadEntry) (c : Ctrl)
      → get_elem? (rows c) row ≡ some (row_of (thread_texts t))
      → t.id < dword_mod
      → (on_command 32776 (on_rclick row c) ≡ open_thread t.id ∷ suspend_thread t.id ∷ [])
        × (on_command 32777 (on_rclick row c) ≡ open_thread t.id ∷ resume_thread t.id ∷ [])
        × (on_command 32778 (on_rclick row c) ≡ open_thread t.id ∷ terminate_thread t.id ∷ [])
  unfolding on_command on_rclick
  on_command-on_rclick row t c at_row h =
      let text : get_item_text row 0 c ≡ format_decimal t.id =
        get_item_text_lem row 0 c ∙ rw at_row refl in
      let id : tcstol 10 (get_item_text row 0 c) ≡ t.id =
        ap (tcstol 10) text ∙ tcstol-format_decimal t.id h in
      (rw id refl, rw id refl, rw id refl)
