-- ===== src/Pe/Resources/Shown.antt =====
-- The tree shows the two upper layers of the table, and the map leads from its nodes to the table.
use process_manger_alpha.Base.{
  ℕ, ◌+◌, ◌==◌, ◌≡◌, refl, sym, ap, ◌∙◌, true, false, Option, some, none, List, [], ◌∷◌, ◌++◌,
  arith, length, All, All-split, All-zip, All-map, All-always, append_assoc, append-nil,
}
use process_manger_alpha.Text.{Text}
use process_manger_alpha.TreeView.{TreeView, Node}
use process_manger_alpha.Pe.Image.{Image, word_at, dword_at}
use process_manger_alpha.Pe.Relocations.{lookup}
use process_manger_alpha.Pe.Resources.{
  FirstMap, remember, directory_of, leaf_text, class_text, leaves, second_layer, classes, ◌>>=◌,
}

-- An entry of the second layer, and one of the first with what is below it: its text, and where its
-- directory is, if it has one.
pub record Leaf : Type 0 where
  pub text : Text
  pub next : Option ℕ

pub record Class : Type 0 where
  pub text : Text
  pub next : Option ℕ
  pub below : List Leaf

-- What is in the file.
unfoldable pub LeavesAt : Image → ℕ → ℕ → List Leaf → Type 0
LeavesAt img base o [] = Unit {0}
LeavesAt img base o (l ∷ ls) =
    (name : ℕ) × (field : ℕ) × (dword_at img o ≡ some name)
    × (leaf_text img base name ≡ some l.text)
    × (dword_at img (o + 4) ≡ some field)
    × (directory_of base field ≡ l.next)
    × LeavesAt img base (o + 8) ls

unfoldable pub SecondAt : Image → ℕ → Option ℕ → List Leaf → Type 0
unfolding LeavesAt
SecondAt img base none ls = ls ≡ []
SecondAt img base (some o) ls =
    (names : ℕ) × (ids : ℕ) × (word_at img (o + 12) ≡ some names)
    × (word_at img (o + 14) ≡ some ids)
    × (names + ids ≡ length ls)
    × LeavesAt img base (o + 16) ls

unfoldable pub ClassesAt : Image → ℕ → ℕ → List Class → Type 0
unfolding SecondAt
ClassesAt img base o [] = Unit {0}
ClassesAt img base o (c ∷ cs) =
    (name : ℕ) × (field : ℕ) × (dword_at img o ≡ some name)
    × (class_text img base name ≡ some c.text)
    × (dword_at img (o + 4) ≡ some field)
    × (directory_of base field ≡ c.next)
    × SecondAt img base c.next c.below
    × ClassesAt img base (o + 8) cs

-- What is on show: the map leads from a node to its directory.
abbrev pub Reaches : Image → FirstMap → ℕ → Option ℕ → Type 0
Reaches img m item none = Unit {0}
Reaches img m item (some o) = lookup item m ≡ some (record { into = img; offset = o })

unfoldable pub LeavesShown : Image → FirstMap → ℕ → List Leaf → List Node → Type 0
LeavesShown img m root [] [] = Unit {0}
LeavesShown img m root (l ∷ ls) (n ∷ ns) =
    (n.parent ≡ some root)
    × (n.text ≡ l.text)
    × Reaches img m n.item l.next
    × LeavesShown img m root ls ns
LeavesShown img m root _ _ = ⊥

unfoldable pub ClassesShown : Image → FirstMap → List Class → List Node → Type 0
unfolding LeavesShown
ClassesShown img m [] ns = ns ≡ []
ClassesShown img m (c ∷ cs) ns =
    (r : Node) × (ls : List Node) × (rest : List Node) × (ns ≡ r ∷ (ls ++ rest))
    × (r.parent ≡ none)
    × (r.text ≡ c.text)
    × Reaches img m r.item c.next
    × LeavesShown img m r.item c.below ls
    × ClassesShown img m cs rest

-- The map leads from these nodes to where it did before.
abbrev pub Keeps : List Node → FirstMap → FirstMap → Type 0
Keeps ns m m' = All (λ n. lookup n.item m' ≡ lookup n.item m) ns

Reaches-remember :
    (img : Image) (item : ℕ) (next : Option ℕ) (m : FirstMap)
    → Reaches img (remember img item next m) item next
Reaches-remember img item none m = tt
Reaches-remember img item (some o) m =
    let same : (item == item) ≡ true = ground arith in rw same refl

-- A new key leaves the others alone.
lookup-remember :
    (img : Image) (item key : ℕ) (next : Option ℕ) (m : FirstMap)
    → (item == key) ≡ false
    → lookup key (remember img item next m) ≡ lookup key m
lookup-remember img item key none m other = refl
lookup-remember img item key (some o) m other = rw other refl

Keeps-Reaches :
    (img : Image) (m m' : FirstMap) (item : ℕ) (next : Option ℕ)
    → lookup item m' ≡ lookup item m
    → Reaches img m item next
    → Reaches img m' item next
Keeps-Reaches img m m' item none same h = tt
Keeps-Reaches img m m' item (some o) same h = same ∙ h

Keeps-LeavesShown :
    (img : Image) (m m' : FirstMap) (root : ℕ) (ls : List Leaf) (ns : List Node)
    → Keeps ns m m'
    → LeavesShown img m root ls ns
    → LeavesShown img m' root ls ns
unfolding LeavesShown
Keeps-LeavesShown img m m' root [] [] k h = h
Keeps-LeavesShown img m m' root (l ∷ ls) (n ∷ ns) (same, k) (parent, text, reaches, h) = (
  parent,
  text,
  Keeps-Reaches img m m' n.item l.next same reaches,
  Keeps-LeavesShown img m m' root ls ns k h,
)
Keeps-LeavesShown img m m' root [] (n ∷ ns) k h = h
Keeps-LeavesShown img m m' root (l ∷ ls) [] k h = h

module _ (v : TreeView) where
  open v use {Tree, nodes, insert_item, nodes-insert_item, fresh}

  -- A node is inserted and its directory remembered: the others keep theirs.
  remember-Keeps :
      (img : Image) (s : Text) (p next : Option ℕ) (m : FirstMap) (t : Tree)
      → Keeps (nodes t) m (remember img (insert_item s p t).0 next m)
  remember-Keeps img s p next m t =
      All-map (nodes t) (λ n other. lookup-remember img _ n.item next m other) (fresh s p t)

  leaves-LeavesShown :
      (ls : List Leaf) (img : Image) (base o root : ℕ) (m : FirstMap) (t : Tree)
      → LeavesAt img base o ls
      → (m' : FirstMap) × (t' : Tree) × (ns : List Node) × (leaves v (length ls) img base o root m t
          ≡ some (m', t'))
        × (nodes t' ≡ nodes t ++ ns)
        × LeavesShown img m' root ls ns
        × Keeps (nodes t) m m'
  unfolding leaves LeavesAt LeavesShown
  leaves-LeavesShown [] img base o root m t d =
      (m, t, [], refl, sym (append-nil (nodes t)), tt, All-always (nodes t) (λ n. refl))
  leaves-LeavesShown (l ∷ ls) img base o root m t (name, field, named, text, fielded, next, d) =
      let (leaf, t₁) = insert_item l.text (some root) t in
      let m₁ = remember img leaf l.next m in
      let n : Node = record { item = leaf; parent = some root; text = l.text } in
      let inserted : nodes t₁ ≡ nodes t ++ n ∷ [] = nodes-insert_item l.text (some root) t in
      let (m', t', ns, runs, shown, below, kept) =
        leaves-LeavesShown ls img base (o + 8) root m₁ t₁ d in
      let (old, new) = All-split _ (nodes t) (n ∷ []) (rw inserted at kept) in
      (
        m',
        t',
        n ∷ ns,
        rw (named, ◌>>=◌, text, fielded, next) runs,
        shown ∙ rw inserted (append_assoc (nodes t) (n ∷ []) ns),
        (
          refl,
          refl,
          Keeps-Reaches img m₁ m' leaf l.next new.0 (Reaches-remember img leaf l.next m),
          below,
        ),
        All-zip (nodes t) (λ x same same'. same ∙ same') old
            (remember-Keeps img l.text (some root) l.next m t),
      )

  second_layer-LeavesShown :
      (next : Option ℕ) (ls : List Leaf) (img : Image) (base root : ℕ) (m : FirstMap) (t : Tree)
      → SecondAt img base next ls
      → (m' : FirstMap) × (t' : Tree) × (ns : List Node) × (second_layer v img base next root m t
          ≡ some (m', t'))
        × (nodes t' ≡ nodes t ++ ns)
        × LeavesShown img m' root ls ns
        × Keeps (nodes t) (remember img root next m) m'
  unfolding second_layer SecondAt LeavesShown
  second_layer-LeavesShown none [] img base root m t d =
      (m, t, [], refl, sym (append-nil (nodes t)), tt, All-always (nodes t) (λ n. refl))
  second_layer-LeavesShown none (l ∷ ls) img base root m t d = absurd (omega (arith, ap length d))
  second_layer-LeavesShown (some o) ls img base root m t (names, ids, named, numbered, count, d) =
      let (m', t', ns, runs, shown, below, kept) =
        leaves-LeavesShown ls img base (o + 16) root (remember img root (some o) m) t d in
      (m', t', ns, rw (named, ◌>>=◌, numbered, count) runs, shown, below, kept)

  pub classes-ClassesShown :
      (cs : List Class) (img : Image) (base o : ℕ) (m : FirstMap) (t : Tree)
      → ClassesAt img base o cs
      → (m' : FirstMap) × (t' : Tree) × (ns : List Node) × (classes v (length cs) img base o m t
          ≡ some (m', t'))
        × (nodes t' ≡ nodes t ++ ns)
        × ClassesShown img m' cs ns
        × Keeps (nodes t) m m'
  unfolding classes ClassesAt ClassesShown
  classes-ClassesShown [] img base o m t d =
      (m, t, [], refl, sym (append-nil (nodes t)), refl, All-always (nodes t) (λ n. refl))
  classes-ClassesShown (c ∷ cs) img base o m t (name, field, named, text, fielded, next, sec, d) =
      let (root, t₁) = insert_item c.text none t in
      let r : Node = record { item = root; parent = none; text = c.text } in
      let inserted : nodes t₁ ≡ nodes t ++ r ∷ [] = nodes-insert_item c.text none t in
      let (m₂, t₂, ls, runs₂, shown₂, below, kept₂) =
        second_layer-LeavesShown c.next c.below img base root m t₁ sec in
      let (m', t', ns, runs, shown, rest, kept) =
        classes-ClassesShown cs img base (o + 8) m₂ t₂ d in
      let (kept₁, kept_ls) = All-split _ (nodes t₁) ls (rw shown₂ at kept) in
      let from_first : Keeps (nodes t₁) (remember img root c.next m) m' =
        All-zip (nodes t₁) (λ x same same'. same ∙ same') kept₁ kept₂ in
      let (old, new) = All-split _ (nodes t) (r ∷ []) (rw inserted at from_first) in
      (
        m',
        t',
        r ∷ (ls ++ ns),
        rw (named, ◌>>=◌, text, fielded, next, runs₂) runs,
        shown
            ∙ rw (shown₂, inserted)
                (append_assoc (nodes t ++ r ∷ []) ls ns
                  ∙ append_assoc (nodes t) (r ∷ []) (ls ++ ns)),
        (
          r,
          ls,
          ns,
          refl,
          refl,
          refl,
          Keeps-Reaches img (remember img root c.next m) m' root c.next new.0
              (Reaches-remember img root c.next m),
          Keeps-LeavesShown img m₂ m' root c.below ls kept_ls below,
          rest,
        ),
        All-zip (nodes t) (λ x same same'. same ∙ same') old
            (remember-Keeps img c.text none c.next m t),
      )
