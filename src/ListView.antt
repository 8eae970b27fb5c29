-- ===== src/ListView.antt =====
-- The list control of a dialog, `CListCtrl` of MFC, which is not in this repository: an abstract
-- type with the operations that the dialogs call, and their documented effect on the rows shown.
-- `listed` is an implementation that meets the interface.
pub mod Rows
pub mod Marked
pub mod Fill
pub mod Edits
pub mod Listed
use process_manger_alpha.Base.{
  ℕ, zero, suc, Bool, ◌||◌, false, List, [], ◌∷◌, ◌≡◌, Option, none, some, length, get_elem?,
  insert_at, modify_at, remove_at,
}
use process_manger_alpha.Text.{Text}

-- The texts of a row, column by column; columns that were never written are left out at the end.
-- `selected` and `checked` are what the user has done to it.
pub record Row : Type 0 where
  pub cells : List Text
  pub selected : Bool
  pub checked : Bool

abbrev pub blank : Row
blank = record { cells = []; selected = false; checked = false }

abbrev pub set_cell : ℕ → Text → List Text → List Text
set_cell zero s [] = s ∷ []
set_cell zero s (x ∷ xs) = s ∷ xs
set_cell (suc i) s [] = [] ∷ set_cell i s []
set_cell (suc i) s (x ∷ xs) = x ∷ set_cell i s xs

abbrev pub get_cell : ℕ → List Text → Text
get_cell i [] = []
get_cell zero (x ∷ xs) = x
get_cell (suc i) (x ∷ xs) = get_cell i xs

-- A row is marked when it is selected or when its box is checked.
abbrev pub is_marked : Row → Bool
is_marked r = r.selected || r.checked

abbrev pub write_cell : ℕ → Text → Row → Row
write_cell i s r = record r { cells = set_cell i s r.cells }

-- What is asked of a row that may not be there.
abbrev pub asked {ℓ} : {A : Type ℓ} → (Row → A) → A → Option Row → A
asked f d none = d
asked f d (some r) = f r

pub record ListView : Type 1 where
  pub Ctrl : Type 0
  -- the rows on show, from the top
  pub rows : Ctrl → List Row
  -- InsertItem(i, _T(""))
  pub insert_item : ℕ → Ctrl → Ctrl
  -- SetItemText(i, column, s)
  pub set_item_text : ℕ → ℕ → Text → Ctrl → Ctrl
  pub delete_item : ℕ → Ctrl → Ctrl
  pub delete_all_items : Ctrl → Ctrl
  pub get_item_count : Ctrl → ℕ
  pub get_item_text : ℕ → ℕ → Ctrl → Text
  -- GetItemState(i, LVIS_SELECTED) == LVIS_SELECTED, and GetCheck(i)
  pub is_selected : ℕ → Ctrl → Bool
  pub get_check : ℕ → Ctrl → Bool
  pub rows-insert_item : (i : ℕ) (c : Ctrl) → rows (insert_item i c) ≡ insert_at i blank (rows c)
  pub rows-set_item_text :
      (i j : ℕ) (s : Text) (c : Ctrl)
      → rows (set_item_text i j s c) ≡ modify_at i (write_cell j s) (rows c)
  pub rows-delete_item : (i : ℕ) (c : Ctrl) → rows (delete_item i c) ≡ remove_at i (rows c)
  pub rows-delete_all_items : (c : Ctrl) → rows (delete_all_items c) ≡ []
  pub get_item_count_lem : (c : Ctrl) → get_item_count c ≡ length (rows c)
  pub get_item_text_lem :
      (i j : ℕ) (c : Ctrl)
      → get_item_text i j c ≡ asked (λ r. get_cell j r.cells) [] (get_elem? (rows c) i)
  pub is_selected_lem :
      (i : ℕ) (c : Ctrl) → is_selected i c ≡ asked (λ r. r.selected) false (get_elem? (rows c) i)
  pub get_check_lem :
      (i : ℕ) (c : Ctrl) → get_check i c ≡ asked (λ r. r.checked) false (get_elem? (rows c) i)

-- A row as the dialogs fill it: these texts, and nothing done to it yet.
abbrev pub row_of : List Text → Row
row_of texts = record { cells = texts; selected = false; checked = false }
