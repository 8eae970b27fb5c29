-- ===== src/ListView/Marked.antt =====
-- The loop by which three dialogs remove the rows that the user has marked, from the last row up:
-- `for (int i = list.GetItemCount(); i > 0; i--) if (list.GetItemState(i - 1, LVIS_SELECTED) ==
-- LVIS_SELECTED || list.GetCheck(i - 1)) { ..; list.DeleteItem(i - 1); }`.
use mathlib.Core.List.{foldr}
use process_manger_alpha.Base.{
  ℕ, zero, suc, Bool, not, ◌||◌, List, [], ◌∷◌, Option, none, some, ◌≡◌, refl, ap, ◌∙◌, arith,
  if◌then◌else◌, Bool-cases, Option-cases, inl, inr, length, get_elem?, remove_at, keep,
}
use process_manger_alpha.ListView.{Row, is_marked, ListView}

-- The loop on the list of rows alone; `f` is what is done for a row before it is removed.
module _ {S : Type 0} (p : Row → Bool) (f : Row → S → S) where
  strike : Option Row → ℕ → List Row × S → List Row × S
  strike none i st = st
  strike (some r) i (xs, s) = if p r then (remove_at i xs, f r s) else (xs, s)

  sweep : ℕ → List Row × S → List Row × S
  unfolding strike
  sweep zero st = st
  sweep (suc i) st = sweep i (strike (get_elem? st.0 i) i st)

  abbrev over : Row → List Row × S → List Row × S
  over x (xs, s) = if p x then (xs, f x s) else (x ∷ xs, s)

  strike-cons :
      (o : Option Row) (i : ℕ) (x : Row) (xs : List Row) (s : S)
      → strike o (suc i) (x ∷ xs, s) ≡ (x ∷ (strike o i (xs, s)).0, (strike o i (xs, s)).1)
  unfolding strike
  strike-cons none i x xs s = refl
  strike-cons (some r) i x xs s = ground arith

  -- The first row is met last.
  sweep-cons :
      (i : ℕ) (x : Row) (xs : List Row) (s : S)
      → sweep (suc i) (x ∷ xs, s) ≡ over x (sweep i (xs, s))
  unfolding sweep
  sweep-cons zero x xs s = refl
  sweep-cons (suc i) x xs s =
      ap (λ st. sweep (suc i) st) (strike-cons (get_elem? xs i) i x xs s) ∙ sweep-cons i x _ _

  sweep-length :
      (xs : List Row) (s : S)
      → sweep (length xs) (xs, s) ≡ (keep (λ r. not (p r)) xs, foldr f s (keep p xs))
  sweep-length [] s = unfold sweep in refl
  sweep-length (x ∷ xs) s =
      sweep-cons (length xs) x xs s
      ∙ ap (over x) (sweep-length xs s)
      ∙ elim (Bool-cases (p x)) [ inl e ↦ rw e | inr e ↦ rw e ]

module _ (v : ListView) where
  open v use {
    Ctrl, rows, delete_item, get_item_count, is_selected, get_check, rows-delete_item,
    get_item_count_lem, is_selected_lem, get_check_lem,
  }

  module _ {S : Type 0} (act : ℕ → Ctrl → S → S) where
    -- One round, at the row `i`; `act` is what the dialog does for a marked row.
    pub remove_if_marked : ℕ → Ctrl → S → Ctrl × S
    remove_if_marked i c s =
        if is_selected i c || get_check i c then (delete_item i c, act i c s) else (c, s)

    -- The rounds for the rows below `i`, the last one first.
    pub remove_rounds : ℕ → Ctrl → S → Ctrl × S
    unfolding remove_if_marked
    remove_rounds zero c s = (c, s)
    remove_rounds (suc i) c s = let (c', s') = remove_if_marked i c s in remove_rounds i c' s'

    unfoldable pub remove_marked : Ctrl → S → Ctrl × S
    unfolding remove_rounds
    remove_marked c s = remove_rounds (get_item_count c) c s

    module _ (f : Row → S → S)
        (does : (i : ℕ) (c : Ctrl) (s : S) (r : Row)
          → get_elem? (rows c) i ≡ some r
          → act i c s ≡ f r s) where
      remove_if_marked-strike :
          (i : ℕ) (c : Ctrl) (s : S)
          → let (c', s') = remove_if_marked i c s in
            ◌≡◌ {A = List Row × S}
              (rows c', s')
              (strike is_marked f (get_elem? (rows c) i) i (rows c, s))
      unfolding remove_if_marked strike
      remove_if_marked-strike i c s =
          rw (is_selected_lem i c, get_check_lem i c)
            (elim (Option-cases (get_elem? (rows c) i)) [
              | inl e ↦ rw e
              | inr (r, e) ↦ rw e (elim (Bool-cases (is_marked r)) [
                | inl m ↦ rw (m, rows-delete_item i c, does i c s r e)
                | inr m ↦ rw m
              ])
            ])

      remove_rounds-sweep :
          (i : ℕ) (c : Ctrl) (s : S)
          → let (c', s') = remove_rounds i c s in
            ◌≡◌ {A = List Row × S} (rows c', s') (sweep is_marked f i (rows c, s))
      unfolding remove_rounds sweep
      remove_rounds-sweep zero c s = refl
      remove_rounds-sweep (suc i) c s =
          let (c', s') = remove_if_marked i c s in
          remove_rounds-sweep i c' s' ∙ ap (sweep is_marked f i) (remove_if_marked-strike i c s)

      -- The rows that are not marked stay, in their order, and for the others `f` is done once each.
      pub remove_marked_lem :
          (c : Ctrl) (s : S)
          → let (c', s') = remove_marked c s in
            ◌≡◌ {A = List Row × S}
              (rows c', s')
              (keep (λ r. not (is_marked r)) (rows c), foldr f s (keep is_marked (rows c)))
      unfolding remove_marked
      remove_marked_lem c s =
          rw (get_item_count_lem c)
            (remove_rounds-sweep (length (rows c)) c s ∙ sweep-length is_marked f (rows c) s)
