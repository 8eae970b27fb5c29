-- ===== src/Scan/Deleting.antt =====
-- The buttons that delete the marked files: `OnBnClickedButton4` of
-- ProcessMangerAlpha/CVSCleanerDialog.cpp, and `OnBnClickedButton1` of CByPathKillingDialog.cpp. The
-- dialogs differ in the column that holds the path.
use mathlib.Core.List.{foldr}
use process_manger_alpha.Base.{ℕ, not, List, [], ◌∷◌, ◌≡◌, refl, ap, ◌∙◌, map, keep}
use process_manger_alpha.Text.{Text}
use process_manger_alpha.ListView.{ListView, get_cell, is_marked}
use process_manger_alpha.ListView.Marked.{remove_marked, remove_marked_lem}

foldr-map {ℓ κ} :
    {A : Type ℓ} {B : Type κ} (f : A → B) (xs : List A) → foldr (λ x ys. f x ∷ ys) [] xs ≡ map f xs
foldr-map f [] = refl
foldr-map f (x ∷ xs) = ap (◌∷◌ (f x)) (foldr-map f xs)

module _ (v : ListView) where
  open v use {Ctrl, rows, get_item_text, get_item_text_lem}

  -- The list afterwards, and the paths that DeleteFile was called for, the latest first. What
  -- DeleteFile returns is not looked at.
  unfoldable pub delete_marked : ℕ → Ctrl → Ctrl × List Text
  delete_marked column c = remove_marked v (λ i c s. get_item_text i column c ∷ s) c []

  -- The files of the marked rows are deleted, each once, and no others; the rows that are not marked
  -- stay in their order.
  pub delete_marked_lem :
      (column : ℕ) (c : Ctrl)
      → let (c', deleted) = delete_marked column c in
        (rows c' ≡ keep (λ r. not (is_marked r)) (rows c))
        × (deleted ≡ map (λ r. get_cell column r.cells) (keep is_marked (rows c)))
  unfolding delete_marked
  delete_marked_lem column c =
      let both =
        remove_marked_lem v (λ i c s. get_item_text i column c ∷ s)
          (λ r s. get_cell column r.cells ∷ s)
          (λ i c s r e. ap (λ t. t ∷ s) (get_item_text_lem i column c ∙ rw e refl)) c [] in
      (
        ap (λ p. p.0) both,
        ap (λ p. p.1) both ∙ foldr-map (λ r. get_cell column r.cells) (keep is_marked (rows c)),
      )
