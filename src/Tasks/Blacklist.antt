-- ===== src/Tasks/Blacklist.antt =====
-- The blacklist of processes: ProcessMangerAlpha/CBlacklistDialog.cpp.
pub mod Steps
use mathlib.Core.List.{foldr}
use process_manger_alpha.Base.{
  ℕ, zero, suc, ◌+◌, ◌-◌, ◌==◌, Bool, not, Bool-cases, inl, inr, List, [], ◌∷◌, ◌++◌, ◌≡◌, refl,
  sym, ap, ◌∙◌, arith, if◌then◌else◌, length, length-append, map, keep, append_assoc,
  get_elem?-append_length,
}
use process_manger_alpha.Text.{Text, format_decimal, tcstol}
use process_manger_alpha.ListView.{Row, ListView, row_of, get_cell, is_marked}
use process_manger_alpha.ListView.Rows.{insert_row, rows-insert_row_last}
use process_manger_alpha.ListView.Marked.{remove_marked, remove_marked_lem}
use process_manger_alpha.ListView.Fill.{fill_rows, rows-fill_rows}

pub record ProcessEntry : Type 0 where
  pub id : ℕ
  pub exe_file : Text

abbrev pub process_texts : ProcessEntry → List Text
process_texts p = format_decimal p.id ∷ p.exe_file ∷ []

-- What a blacklisted row's first text names.
abbrev pub names : ℕ → Row → Bool
names pid r = pid == tcstol 10 (get_cell 0 r.cells)

-- The processes that are ended: each once for every row that names it.
abbrev pub named_by : List Row → List ProcessEntry → List ℕ
named_by rs [] = []
named_by rs (p ∷ ps) = map (λ r. p.id) (keep (names p.id) rs) ++ named_by rs ps

module _ (v : ListView) where
  open v use {Ctrl, rows, get_item_text, get_item_text_lem}

  pub record Blacklist : Type 0 where
    pub proc_list : Ctrl
    pub list : Ctrl
    -- blackListCount, an int, which is lowered once for each row that is removed
    pub count : ℕ

  -- `blackListCount` is the number of rows.
  abbrev pub IsCounted : Blacklist → Type 0
  IsCounted d = d.count ≡ length (rows d.list)

  -- BLProcess
  unfoldable pub bl_process : List ProcessEntry → Blacklist → Blacklist
  bl_process snapshot d = record d { proc_list = fill_rows v process_texts 0 snapshot d.proc_list }

  -- OnDblclkList2, at the row that was clicked
  unfoldable pub on_dblclk : ℕ → Blacklist → Blacklist
  on_dblclk row d =
      let texts = get_item_text row 0 d.proc_list ∷ get_item_text row 1 d.proc_list ∷ [] in
      record d { list = insert_row v d.count texts d.list; count = suc d.count }

  -- OnBnClickedButton2
  unfoldable pub remove_chosen : Blacklist → Blacklist
  remove_chosen d =
      let (c, count) = remove_marked v (λ i c s. s - 1) d.list d.count in
      record d { list = c; count = count }

  -- The inner loop of `OnBnClickedButton3`, for the process `pid`, over the rows left.
  unfoldable pub kill_rounds : Ctrl → ℕ → ℕ → ℕ → List ℕ
  kill_rounds c pid zero j = []
  kill_rounds c pid (suc left) j =
      let rest = kill_rounds c pid left (suc j) in
      if pid == tcstol 10 (get_item_text j 0 c) then pid ∷ rest else rest

  -- OnBnClickedButton3: the processes that TerminateProcess is called for, in order.
  unfoldable pub kill_all : List ProcessEntry → Blacklist → List ℕ
  unfolding kill_rounds
  kill_all [] d = []
  kill_all (p ∷ ps) d = kill_rounds d.list p.id d.count 0 ++ kill_all ps d

  -- When the count is the number of rows, a double click puts a row with the two texts of the
  -- process behind the last one, and the count is the number of rows again.
  pub on_dblclk-IsCounted :
      (row : ℕ) (d : Blacklist)
      → IsCounted d
      → IsCounted (on_dblclk row d)
        × (rows (on_dblclk row d).list
            ≡ rows d.list
              ++ row_of (get_item_text row 0 d.proc_list ∷ get_item_text row 1 d.proc_list ∷ [])
                ∷ [])
  unfolding on_dblclk
  on_dblclk-IsCounted row d e =
      let texts = get_item_text row 0 d.proc_list ∷ get_item_text row 1 d.proc_list ∷ [] in
      let shown = rows-insert_row_last v d.count texts d.list e in
      (omega (arith, e, ap length shown, length-append (rows d.list) (row_of texts ∷ [])), shown)

  lowered : (rs : List Row) (n : ℕ) → foldr (λ r s. s - 1) n rs ≡ n - length rs
  lowered [] n = omega arith
  lowered (r ∷ rs) n = omega (arith, lowered rs n)

  length-keep :
      (p : Row → Bool) (rs : List Row)
      → length (keep p rs) + length (keep (λ r. not (p r)) rs) ≡ length rs
  length-keep p [] = refl
  length-keep p (r ∷ rs) = ground (arith, length-keep p rs)

  -- When the count is the number of rows, removing the marked rows leaves the others, in their
  -- order, and the count is the number of rows again.
  pub remove_chosen-IsCounted :
      (d : Blacklist)
      → IsCounted d
      → IsCounted (remove_chosen d)
        × (rows (remove_chosen d).list ≡ keep (λ r. not (is_marked r)) (rows d.list))
  unfolding remove_chosen
  remove_chosen-IsCounted d e =
      let both =
        remove_marked_lem v (λ i c s. s - 1) (λ r s. s - 1) (λ i c s r h. refl) d.list d.count in
      let stay = ap (λ p. p.0) both in
      let count = ap (λ p. p.1) both ∙ lowered (keep is_marked (rows d.list)) d.count in
      (omega (arith, e, count, ap length stay, length-keep is_marked (rows d.list)), stay)

  kill_rounds-keep :
      (c : Ctrl) (pid j : ℕ) (done rs : List Row)
      → rows c ≡ done ++ rs
      → j ≡ length done
      → kill_rounds c pid (length rs) j ≡ map (λ r. pid) (keep (names pid) rs)
  unfolding kill_rounds
  kill_rounds-keep c pid j done [] e at = refl
  kill_rounds-keep c pid j done (r ∷ rs) e at =
      let text : get_item_text j 0 c ≡ get_cell 0 r.cells =
        get_item_text_lem j 0 c ∙ rw (e, at, get_elem?-append_length done r rs) refl in
      let rest =
        kill_rounds-keep c pid (suc j) (done ++ r ∷ []) rs (e ∙ sym (append_assoc done (r ∷ []) rs))
          (omega (arith, length-append done (r ∷ []))) in
      elim (Bool-cases (names pid r)) [
        | inl own ↦ rw (kill_rounds, text, own) (ap (◌∷◌ pid) rest)
        | inr other ↦ rw (kill_rounds, text, other) rest
      ]

  -- While the count is the number of rows, the button ends exactly the processes of the snapshot that
  -- a row names by number, once for each such row.
  pub kill_all_lem :
      (snapshot : List ProcessEntry) (d : Blacklist)
      → IsCounted d
      → kill_all snapshot d ≡ named_by (rows d.list) snapshot
  unfolding kill_all
  kill_all_lem [] d e = refl
  kill_all_lem (p ∷ ps) d e =
      let first =
        ap (λ n. kill_rounds d.list p.id n 0) e
        ∙ kill_rounds-keep d.list p.id 0 [] (rows d.list) refl refl in
      rw (first, kill_all_lem ps d e) refl

  -- The empty list of processes is filled with the snapshot.
  pub bl_process_lem :
      (snapshot : List ProcessEntry) (d : Blacklist)
      → rows d.proc_list ≡ []
      → rows (bl_process snapshot d).proc_list ≡ map (λ p. row_of (process_texts p)) snapshot
  unfolding bl_process
  bl_process_lem snapshot d e =
      rows-fill_rows v process_texts 0 snapshot d.proc_list (rw e refl) ∙ rw e refl
