-- ===== src/Tasks/Blacklist/Steps.antt =====
-- A session of the blacklist: whatever the user does, in any order, the dialog holds the rows that
-- were chosen and not removed.
use process_manger_alpha.Base.{
  ℕ, not, List, [], ◌∷◌, ◌++◌, ◌≡◌, refl, sym, ap, ◌∙◌, length, map, keep, arith,
}
use process_manger_alpha.Text.{Text}
use process_manger_alpha.ListView.{Row, ListView, row_of, is_marked}
use process_manger_alpha.Tasks.Blacklist.{
  ProcessEntry, Blacklist, IsCounted, bl_process, on_dblclk, remove_chosen, kill_all, named_by,
  on_dblclk-IsCounted, remove_chosen-IsCounted, kill_all_lem,
}

abbrev pub cells_of : List Row → List (List Text)
cells_of rs = map (λ r. r.cells) rs

pub length-cells_of : (rs : List Row) → length (cells_of rs) ≡ length rs
length-cells_of [] = refl
length-cells_of (r ∷ rs) = omega (arith, length-cells_of rs)

module _ (v : ListView) where
  open v use {Ctrl, rows, get_item_text}

  -- How a dialog comes about, with the rows that it should hold: it opens with an empty list, the
  -- processes are listed, a process is chosen, the marked rows are removed, and the user marks rows.
  pub data Steps : Blacklist v → List Row → Type 0 where
    opens : {d : Blacklist v} → rows d.list ≡ [] → d.count ≡ 0 → Steps d []
    lists :
        {d : Blacklist v} {rs : List Row} (snapshot : List ProcessEntry)
        → Steps d rs
        → Steps (bl_process v snapshot d) rs
    chooses :
        {d : Blacklist v} {rs : List Row} (row : ℕ)
        → Steps d rs
        → Steps (on_dblclk v row d) (
            rs
            ++ row_of (get_item_text row 0 d.proc_list ∷ get_item_text row 1 d.proc_list ∷ []) ∷ [])
    removes :
        {d : Blacklist v} {rs : List Row}
        → Steps d rs
        → Steps (remove_chosen v d) (keep (λ r. not (is_marked r)) rs)
    marks :
        {d : Blacklist v} {rs : List Row} (c : Ctrl)
        → cells_of (rows c) ≡ cells_of rs
        → Steps d rs
        → Steps (record d { list = c }) (rows c)

  Steps-IsCounted :
      {d : Blacklist v} {rs : List Row} → Steps d rs → (rows d.list ≡ rs) × IsCounted v d
  unfolding bl_process
  Steps-IsCounted (opens empty zero_count) = (empty, zero_count ∙ sym (ap length empty))
  Steps-IsCounted (lists snapshot t) = Steps-IsCounted t
  Steps-IsCounted (chooses {d} row t) =
      let (same, e) = Steps-IsCounted t in
      let (e', shown) = on_dblclk-IsCounted v row d e in (shown ∙ rw same refl, e')
  Steps-IsCounted (removes {d} t) =
      let (same, e) = Steps-IsCounted t in
      let (e', stay) = remove_chosen-IsCounted v d e in
      (stay ∙ ap (keep (λ r. not (is_marked r))) same, e')
  Steps-IsCounted (marks {d} {rs} c same_cells t) =
      let (same, e) = Steps-IsCounted t in
      let sizes = sym (length-cells_of (rows c)) ∙ ap length same_cells ∙ length-cells_of rs in
      (refl, e ∙ ap length same ∙ sym sizes)

  -- A dialog that came about by these steps holds the rows that were chosen and not removed, in order,
  -- and its button ends exactly the processes of the snapshot that one of these rows names by its
  -- number, once for each such row.
  pub kill_all-Steps :
      {rs : List Row} (d : Blacklist v) (snapshot : List ProcessEntry)
      → Steps d rs
      → (rows d.list ≡ rs) × (kill_all v snapshot d ≡ named_by rs snapshot)
  kill_all-Steps d snapshot t =
      let (same, e) = Steps-IsCounted t in
      (same, kill_all_lem v snapshot d e ∙ ap (λ rs. named_by rs snapshot) same)
