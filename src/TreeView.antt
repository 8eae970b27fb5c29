-- ===== src/TreeView.antt =====
-- CTreeCtrl (MFC) as an interface: its nodes in the order in which they were inserted, with handles
-- that differ from one another.
pub mod Noted
use process_manger_alpha.Base.{
  ℕ, ◌==◌, ◌≡◌, false, Option, none, some, List, [], ◌∷◌, ◌++◌, All, if◌then◌else◌,
}
use process_manger_alpha.Text.{Text}

pub record Node : Type 0 where
  pub item : ℕ
  pub parent : Option ℕ
  pub text : Text

-- `GetParentItem`: NULL for a root, and for a handle that is not there.
abbrev pub parent_among : ℕ → List Node → Option ℕ
parent_among item [] = none
parent_among item (n ∷ ns) = if n.item == item then n.parent else parent_among item ns

pub record TreeView : Type 1 where
  pub Tree : Type 0
  pub nodes : Tree → List Node
  -- `InsertItem(text, parent)`: the new handle, and the tree.
  pub insert_item : Text → Option ℕ → Tree → ℕ × Tree
  pub get_parent_item : ℕ → Tree → Option ℕ
  pub nodes-insert_item :
      (s : Text) (p : Option ℕ) (t : Tree)
      → nodes (insert_item s p t).1
        ≡ nodes t ++ record { item = (insert_item s p t).0; parent = p; text = s } ∷ []
  pub fresh :
      (s : Text) (p : Option ℕ) (t : Tree)
      → All (λ n. ((insert_item s p t).0 == n.item) ≡ false) (nodes t)
  pub get_parent_item_lem :
      (item : ℕ) (t : Tree) → get_parent_item item t ≡ parent_among item (nodes t)
