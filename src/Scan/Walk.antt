-- ===== src/Scan/Walk.antt =====
-- What a walk adds to a list: the rows of the files it visits, each once, whatever the order in which
-- the counters of the nested calls put them.
use mathlib.Core.List.{Permᴰ}
use mathlib.Core.List.Permᴰ
use process_manger_alpha.Base.{
  ℕ, zero, suc, ◌≤◌, Bool-cases, inl, inr, List, [], ◌∷◌, ◌++◌, ◌≡◌, refl, sym, ap, ◌∙◌, subst,
  arith, if◌then◌else◌, length, length-append, append_assoc, insert_at,
}
use process_manger_alpha.Text.{Text}
use process_manger_alpha.ListView.{Row}
use process_manger_alpha.Scan.{
  File, Folder, refused, opened, Entries, no_more, file_entry, folder_entry, is_skipped, join_path,
  walk_folder, walk_entries,
}

pub length-Perm {ℓ} : {A : Type ℓ} {xs ys : List A} → Permᴰ xs ys → length xs ≡ length ys
length-Perm (Permᴰ.nil) = refl
length-Perm (Permᴰ.cons e p) = ap suc (length-Perm p)
length-Perm (Permᴰ.swap e e') = refl
length-Perm (Permᴰ.trans p q) = length-Perm p ∙ length-Perm q

pub insert_at-Perm {ℓ} :
    {A : Type ℓ} (i : ℕ) (a : A) (xs : List A) → Permᴰ (insert_at i a xs) (xs ++ a ∷ [])
insert_at-Perm zero a xs = Permᴰ.append_comm (a ∷ []) xs
insert_at-Perm (suc i) a [] = Permᴰ.refl (a ∷ [])
insert_at-Perm (suc i) a (x ∷ xs) = Permᴰ.cons refl (insert_at-Perm i a xs)

module _ {B : Type 0} (rows_of : Text → File → List B) where
  unfoldable mutual
    -- The rows of the files in a folder and in those below it, the skipped ones left out.
    pub folder_rows : Text → Folder → List B
    folder_rows path (refused code) = []
    folder_rows path (opened es) = entries_rows path es

    pub entries_rows : Text → Entries → List B
    entries_rows path no_more = []
    entries_rows path (file_entry f es) =
        (if is_skipped f.name f.hidden then [] else rows_of path f) ++ entries_rows path es
    entries_rows path (folder_entry name hidden sub es) =
        let inside = folder_rows (join_path path name) sub in
        (if is_skipped name hidden then [] else inside) ++ entries_rows path es

module _ {S : Type 0} (visit : Text → File → ℕ → S → ℕ × S) (warn : Text → S → S)
    (rows : S → List Row) (rows_of : Text → File → List Row)
    (visit-adds : (path : Text) (f : File) (i : ℕ) (s : S)
      → i ≤ length (rows s)
      → let (i', s') = visit path f i s in
        (i' ≤ length (rows s')) × Permᴰ (rows s') (rows s ++ rows_of path f))
    (warn-adds : (text : Text) (s : S) → rows (warn text s) ≡ rows s) where
  Added : S → S → List Row → Type 0
  Added s s' new = Permᴰ (rows s') (rows s ++ new)

  none_added : (s : S) → Added s s []
  unfolding Added
  none_added s = Permᴰ.symm (Permᴰ.append-nil (rows s))

  then_added :
      (s s' s'' : S) (new more : List Row)
      → Added s s' new
      → Added s' s'' more
      → Added s s'' (new ++ more)
  unfolding Added
  then_added s s' s'' new more p q = Permᴰ.trans q (
      subst (λ xs. Permᴰ (rows s' ++ more) xs) (append_assoc (rows s) new more)
        (Permᴰ.append_right more p))

  Added-length : (s s' : S) (new : List Row) → Added s s' new → length (rows s) ≤ length (rows s')
  unfolding Added
  Added-length s s' new p = omega (arith, length-Perm p, length-append (rows s) new)

  mutual
    unfolding walk_folder folder_rows Added none_added then_added Added-length

    pub walk_folder-Perm :
        (path : Text) (fd : Folder) (s : S)
        → Permᴰ (rows (walk_folder visit warn path fd s)) (rows s ++ folder_rows rows_of path fd)
    walk_folder-Perm path (refused code) s =
        subst (λ xs. Permᴰ xs (rows s ++ [])) (sym (warn-adds _ s)) (none_added s)
    walk_folder-Perm path (opened es) s = walk_entries-Perm path es 0 s (omega arith)

    pub walk_entries-Perm :
        (path : Text) (es : Entries) (i : ℕ) (s : S)
        → i ≤ length (rows s)
        → Permᴰ
            (rows (walk_entries visit warn path es i s))
            (rows s ++ entries_rows rows_of path es)
    walk_entries-Perm path no_more i s h = none_added s
    walk_entries-Perm path (file_entry f es) i s h =
        elim (Bool-cases (is_skipped f.name f.hidden)) [
          | inl e ↦ rw e (walk_entries-Perm path es i s h)
          | inr e ↦
              let (i', s') = visit path f i s in
              let (h', p) = visit-adds path f i s h in
              rw e (then_added s s' _ (rows_of path f) _ p (walk_entries-Perm path es i' s' h'))
        ]
    walk_entries-Perm path (folder_entry name hidden sub es) i s h =
        elim (Bool-cases (is_skipped name hidden)) [
          | inl e ↦ rw e (walk_entries-Perm path es i s h)
          | inr e ↦
              let s' = walk_folder visit warn (join_path path name) sub s in
              let p = walk_folder-Perm (join_path path name) sub s in
              rw e (
                then_added s s' _ _ _ p
                  (walk_entries-Perm path es i s' (omega (arith, Added-length s s' _ p))))
        ]
