-- ===== src/Pe/Exports/Rows.antt =====
-- The list of exports shows every function of the table that has an address, with its name.
use process_manger_alpha.Base.{
  ℕ, suc, ◌+◌, ◌*◌, ◌==◌, if◌then◌else◌, ◌⊎◌, Bool, true, false, not, Bool-cases, inl, inr, Option,
  none, some, List, [], ◌∷◌, ◌++◌, ◌≡◌, refl, sym, ap, ◌∙◌, arith, length, map, keep, length-append,
  append_assoc, append-nil,
}
use process_manger_alpha.ListView.{Row, ListView, row_of}
use process_manger_alpha.ListView.Rows.{insert_row, rows-insert_row_last}
use process_manger_alpha.Text.{Text}
use process_manger_alpha.Pe.Image.{Image, word_at, dword_at}
use process_manger_alpha.Pe.Globals.{Globals, ◌>>=◌, need}
use process_manger_alpha.Pe.Exports.{ExportTables, find_ordinal, export_texts, export_rows}

-- The words of the ordinal table, from the place `i` on.
unfoldable pub OrdinalsAt : Image → ExportTables → ℕ → List ℕ → Type 0
OrdinalsAt img t i [] = Unit {0}
OrdinalsAt img t i (o ∷ os) =
    (word_at img (t.ordinal_table + 2 * i) ≡ some o) × OrdinalsAt img t (suc i) os

-- The place of the first of these words that is `index`.
abbrev pub first_place : ℕ → ℕ → List ℕ → Option ℕ
first_place index i [] = none
first_place index i (o ∷ os) =
    let rest = first_place index (suc i) os in if index == o then some i else rest

-- On an ordinal table that can be read, the inner loop finds the first place that holds the
-- function's index, and none when there is no such place.
pub find_ordinal-first_place :
    (img : Image) (t : ExportTables) (index i : ℕ) (os : List ℕ) (g : Globals)
    → OrdinalsAt img t i os
    → find_ordinal img t index (length os) i g ≡ some (first_place index i os, g)
unfolding OrdinalsAt find_ordinal
find_ordinal-first_place img t index i [] g d = refl
find_ordinal-first_place img t index i (o ∷ os) g (word, d) =
    let rest = find_ordinal-first_place img t index (suc i) os g d in
    elim (Bool-cases (index == o)) [
      | inl e ↦ rw (word, ◌>>=◌, need, e) refl
      | inr e ↦ rw (word, ◌>>=◌, need, e) rest
    ]

-- An entry of the function table, with the texts of its row.
pub record Function : Type 0 where
  pub entry : ℕ
  pub texts : List Text

abbrev pub is_used : Function → Bool
is_used f = not (f.entry == 0)

-- The entries of the function table from an index on. The texts of those that are not 0 are what
-- `export_texts` makes of them, whose conversions change the globals.
unfoldable pub FunctionsAt : Image → ExportTables → ℕ → Globals → List Function → Globals → Type 0
FunctionsAt img t index g [] g' = g ≡ g'
FunctionsAt img t index g (f ∷ fs) g' =
    (mid : Globals) × (dword_at img (t.func_table + 4 * index) ≡ some f.entry)
    × (((f.entry == 0 ≡ true) × (mid ≡ g))
        ⊎ ((f.entry == 0 ≡ false) × (export_texts img t index f.entry g ≡ some (f.texts, mid))))
    × FunctionsAt img t (suc index) mid fs g'

abbrev pub function_row : Function → Row
function_row f = row_of f.texts

module _ (v : ListView) where
  open v use {Ctrl, rows}

  -- With the counter at the number of rows, and a function table that can be read, the list of
  -- exports gets one row for each entry of the table that is not 0, in order, below the rows that
  -- it had.
  pub rows-export_rows :
      (img : Image) (t : ExportTables) (index i : ℕ) (fs : List Function) (c : Ctrl)
      (g g' : Globals)
      → FunctionsAt img t index g fs g'
      → i ≡ length (rows c)
      → (c' : Ctrl) × (export_rows v img t (length fs) index i c g ≡ some (c', g'))
        × (rows c' ≡ rows c ++ map function_row (keep is_used fs))
  unfolding FunctionsAt export_rows
  rows-export_rows img t index i [] c g g' d e =
      (c, ap (λ h. some (c, h)) d, sym (append-nil (rows c)))
  rows-export_rows img t index i (f ∷ fs) c g g' (mid, entry, inl (unused, same), d) e =
      let (c', runs, done) = rows-export_rows img t (suc index) i fs c mid g' d e in
      (
        c',
        rw (entry, ◌>>=◌, need, unused)
            (ap (export_rows v img t (length fs) (suc index) i c) (sym same) ∙ runs),
        rw unused done,
      )
  rows-export_rows img t index i (f ∷ fs) c g g' (mid, entry, inr (used, texts), d) e =
      let c₁ = insert_row v i f.texts c in
      let shown = rows-insert_row_last v i f.texts c e in
      let (c', runs, done) =
        rows-export_rows img t (suc index) (suc i) fs c₁ mid g' d
          (omega (arith, ap length shown, length-append (rows c) (function_row f ∷ []))) in
      (
        c',
        rw (entry, ◌>>=◌, need, used, texts) runs,
        rw used (
            done
            ∙ rw shown
                (append_assoc (rows c) (function_row f ∷ []) (map function_row (keep is_used fs)))),
      )
