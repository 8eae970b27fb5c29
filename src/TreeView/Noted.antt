-- ===== src/TreeView/Noted.antt =====
-- The tree control as the list of its nodes: the interface can be met.
use process_manger_alpha.Base.{
  ℕ, suc, ◌+◌, ◌<◌, ◌==◌, ◌≡◌, refl, false, List, [], ◌∷◌, ◌++◌, All, arith,
}
use process_manger_alpha.TreeView.{Node, parent_among, TreeView}

abbrev total : List Node → ℕ
total [] = 0
total (n ∷ ns) = n.item + total ns

pub All-other : (k : ℕ) (ns : List Node) → total ns < k → All (λ n. (k == n.item) ≡ false) ns
All-other k [] h = tt
All-other k (n ∷ ns) h = (ground arith, All-other k ns (omega arith))

-- A new handle is above all the others.
abbrev pub noted : TreeView
noted = record {
  Tree = List Node;
  nodes = λ t. t;
  insert_item =
      λ s p t. (suc (total t), t ++ record { item = suc (total t); parent = p; text = s } ∷ []);
  get_parent_item = λ item t. parent_among item t;
  nodes-insert_item = λ s p t. refl;
  fresh = λ s p t. All-other (suc (total t)) t (omega arith);
  get_parent_item_lem = λ item t. refl;
}
