-- ===== src/Scan/Viruses/Placed.antt =====
-- What enumFilesByDir of ProcessMangerAlpha/CByPathKillingDialog.cpp does to its list for a whole
-- folder: the number of an entry of the list of viruses is the place at which a row goes in.
use mathlib.Core.List.{Permᴰ}
use mathlib.Core.List.Permᴰ
use process_manger_alpha.Base.{
  ℕ, zero, suc, ◌≤◌, ◌<◌, ◌+◌, ◌^◌, All-split, Bool-cases, inl, inr, ◌⊎◌, List, [], ◌∷◌, ◌++◌, ◌≡◌,
  refl, sym, ap, ◌∙◌, subst, arith, if◌then◌else◌, leb, list_eq, length, length-append,
  length-insert_at, append_assoc, append-nil, map, All, All-map,
}
use process_manger_alpha.Text.{Text, lower}
use process_manger_alpha.ListView.{Row, ListView, row_of, blank}
use process_manger_alpha.ListView.Rows.{insert_row, rows-insert_row, rows-insert_row_past}
use process_manger_alpha.Scan.{File, join_path}
use process_manger_alpha.Scan.Walk.{insert_at-Perm}
use process_manger_alpha.Scan.Viruses.{digest_text}

-- An entry of the list of viruses that the MD5 of a file is equal to: the entry's number, and the
-- texts of the row.
pub record Hit : Type 0 where
  pub index : ℕ
  pub texts : List Text

abbrev pub hit_row : Hit → Row
hit_row h = row_of h.texts

-- The hits among the entries from `index` on.
abbrev pub hits : List Text → ℕ → Text → Text → List Hit
hits [] index path text = []
hits (entry ∷ known) index path text =
    (if list_eq text entry then record { index = index; texts = path ∷ text ∷ [] } ∷ [] else [])
    ++ hits known (suc index) path text

-- None for a file of 2 GB or more.
abbrev pub file_hits : (List ℕ → List ℕ) → List Text → Text → File → List Hit
file_hits md5 known path f =
    if leb (2 ^ 31) f.get_file_size
    then []
    else hits known 0 (join_path path f.name) (digest_text lower (md5 f.content))

within : (i n : ℕ) → (i ≤ n) ⊎ (n < i)
within zero n = inl (omega arith)
within (suc i) zero = inr (omega arith)
within (suc i) (suc n) = elim (within i n) [ inl h ↦ inl (omega arith) | inr h ↦ inr (omega arith) ]

-- A blank row for each hit.
abbrev pub blanks : List Hit → List Row
blanks lost = map (λ h. blank) lost

-- The hits are divided into those that are shown and those that are lost, whose numbers are beyond `n`.
-- The rows have a row for each of the former behind `before`, and a blank one for each of the latter;
-- the order in which the rows stand is left open.
pub record Placed (found : List Hit) (n : ℕ) (before after : List Row) : Type 0 where
  pub shown : List Hit
  pub lost : List Hit
  pub found_as : Permᴰ found (shown ++ lost)
  pub beyond : All (λ h. n < h.index) lost
  pub rows_as : Permᴰ after (before ++ (map hit_row shown ++ blanks lost))

middle {ℓ} : {A : Type ℓ} (a : A) (xs ys : List A) → Permᴰ (a ∷ (xs ++ ys)) (xs ++ a ∷ ys)
middle a xs ys = Permᴰ.symm (Permᴰ.middle a xs ys)

-- One hit more that is shown.
Placed-shown :
    (h : Hit) (found : List Hit) (n n' : ℕ) (before between after : List Row)
    → n ≤ n'
    → Permᴰ between (before ++ hit_row h ∷ [])
    → Placed found n' between after
    → Placed (h ∷ found) n before after
Placed-shown h found n n' before between after le put p =
    let rest = map hit_row p.shown ++ blanks p.lost in
    record {
      shown = h ∷ p.shown;
      lost = p.lost;
      found_as = Permᴰ.cons refl p.found_as;
      beyond = All-map p.lost (λ x l. omega arith) p.beyond;
      rows_as = Permᴰ.trans p.rows_as (
          subst (λ xs. Permᴰ (between ++ rest) xs) (append_assoc before (hit_row h ∷ []) rest)
            (Permᴰ.append_right rest put));
    }

-- One hit more that is lost.
Placed-lost :
    (h : Hit) (found : List Hit) (n n' : ℕ) (before between after : List Row)
    → n ≤ n'
    → n < h.index
    → between ≡ before ++ blank ∷ []
    → Placed found n' between after
    → Placed (h ∷ found) n before after
Placed-lost h found n n' before between after le far put p =
    let seen = map hit_row p.shown in
    let rest = seen ++ blanks p.lost in
    record {
      shown = p.shown;
      lost = h ∷ p.lost;
      found_as = Permᴰ.trans (Permᴰ.cons refl p.found_as) (middle h p.shown p.lost);
      beyond = (far, All-map p.lost (λ x l. omega arith) p.beyond);
      rows_as = Permᴰ.trans p.rows_as (
          subst (λ xs. Permᴰ xs (before ++ (seen ++ blank ∷ blanks p.lost)))
            (sym (ap (λ xs. xs ++ rest) put ∙ append_assoc before (blank ∷ []) rest))
            (Permᴰ.append_left before (middle blank seen (blanks p.lost))));
    }

All-Perm : {A : Type 0} (P : A → Type 0) {xs ys : List A} → Permᴰ xs ys → All P xs → All P ys
All-Perm P (Permᴰ.nil) h = tt
All-Perm P (Permᴰ.cons e p) (here, there) = (subst P e here, All-Perm P p there)
All-Perm P (Permᴰ.swap e e') (first, (second, there)) =
    (subst P e' second, (subst P e first, there))
All-Perm P (Permᴰ.trans p q) h = All-Perm P q (All-Perm P p h)

-- The numbers of the entries are at most `n`.
pub hits-All :
    (known : List Text) (index n : ℕ) (path text : Text)
    → index + length known ≤ suc n
    → All (λ h. h.index ≤ n) (hits known index path text)
hits-All [] index n path text le = tt
hits-All (entry ∷ known) index n path text le = elim (Bool-cases (list_eq text entry)) [
  | inl same ↦ rw same (omega arith, hits-All known (suc index) n path text (omega arith))
  | inr other ↦ rw other (hits-All known (suc index) n path text (omega arith))
]

none_beyond :
    (n : ℕ) (lost : List Hit)
    → All (λ h. h.index ≤ n) lost
    → All (λ h. n < h.index) lost
    → lost ≡ []
none_beyond n [] near far = refl
none_beyond n (h ∷ lost) near far = absurd (omega (arith, near.0, far.0))

pub Placed-Perm :
    (found : List Hit) (n : ℕ) (before after : List Row)
    → All (λ h. h.index ≤ n) found
    → Placed found n before after
    → Permᴰ after (before ++ map hit_row found)
Placed-Perm found n before after near p =
    let (shown_near, lost_near) =
      All-split (λ h. h.index ≤ n) p.shown p.lost (All-Perm (λ h. h.index ≤ n) p.found_as near) in
    let empty = none_beyond n p.lost lost_near p.beyond in
    let all_shown : Permᴰ found p.shown =
      subst (λ xs. Permᴰ found xs) (ap (λ xs. p.shown ++ xs) empty ∙ append-nil p.shown)
        p.found_as in
    Permᴰ.trans
      (subst (λ xs. Permᴰ after (before ++ xs))
        (ap (λ xs. map hit_row p.shown ++ blanks xs) empty ∙ append-nil (map hit_row p.shown))
        p.rows_as)
      (Permᴰ.append_left before (Permᴰ.map hit_row (Permᴰ.symm all_shown)))

module _ (v : ListView) where
  open v use {Ctrl, rows}

  -- The rows of the hits are put in, one after another.
  abbrev pub place : List Hit → Ctrl → Ctrl
  place [] c = c
  place (h ∷ found) c = place found (insert_row v h.index h.texts c)

  pub place-append : (xs ys : List Hit) (c : Ctrl) → place (xs ++ ys) c ≡ place ys (place xs c)
  place-append [] ys c = refl
  place-append (h ∷ xs) ys c = place-append xs ys (insert_row v h.index h.texts c)

  pub place-Placed :
      (found : List Hit) (c : Ctrl) → Placed found (length (rows c)) (rows c) (rows (place found c))
  place-Placed [] c = record {
    shown = [];
    lost = [];
    found_as = Permᴰ.nil;
    beyond = tt;
    rows_as = Permᴰ.symm (Permᴰ.append-nil (rows c));
  }
  place-Placed (h ∷ found) c =
      let c' = insert_row v h.index h.texts c in
      let rest = place-Placed found c' in
      elim (within h.index (length (rows c))) [
        | inl near ↦
            let put = rows-insert_row v h.index h.texts c near in
            Placed-shown h found _ _ (rows c) (rows c') _
              (omega (arith, ap length put, length-insert_at h.index (hit_row h) (rows c)))
              (subst (λ xs. Permᴰ xs (rows c ++ hit_row h ∷ [])) (sym put)
                (insert_at-Perm h.index (hit_row h) (rows c)))
              rest
        | inr far ↦
            let put = rows-insert_row_past v h.index h.texts c far in
            Placed-lost h found _ _ (rows c) (rows c') _
              (omega (arith, ap length put, length-append (rows c) (blank ∷ []))) far put rest
      ]
