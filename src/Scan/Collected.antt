-- ===== src/Scan/Collected.antt =====
-- What a walk comes to, as a list of what its visits are made of.
use process_manger_alpha.Base.{ℕ, Bool-cases, inl, inr, List, [], ◌++◌, ◌≡◌, sym, ap, ◌∙◌}
use process_manger_alpha.Text.{Text}
use process_manger_alpha.Scan.{
  File, Folder, refused, opened, Entries, no_more, file_entry, folder_entry, is_skipped, join_path,
  walk_folder, walk_entries,
}
use process_manger_alpha.Scan.Walk.{folder_rows, entries_rows}

-- A predicate on lists that holds of the empty one and of two behind one another holds of what is
-- collected in a folder when it holds for each file.
module _ {B : Type 0} (items : Text → File → List B) (P : List B → Type 0) (P-nil : P [])
    (P-append : (xs ys : List B) → P xs → P ys → P (xs ++ ys))
    (P-items : (path : Text) (f : File) → P (items path f)) where
  mutual
    unfolding folder_rows

    pub folder_rows-all : (path : Text) (fd : Folder) → P (folder_rows items path fd)
    folder_rows-all path (refused code) = P-nil
    folder_rows-all path (opened es) = entries_rows-all path es

    pub entries_rows-all : (path : Text) (es : Entries) → P (entries_rows items path es)
    entries_rows-all path no_more = P-nil
    entries_rows-all path (file_entry f es) = elim (Bool-cases (is_skipped f.name f.hidden)) [
      | inl e ↦ rw e (entries_rows-all path es)
      | inr e ↦ rw e (P-append _ _ (P-items path f) (entries_rows-all path es))
    ]
    entries_rows-all path (folder_entry name hidden sub es) =
        elim (Bool-cases (is_skipped name hidden)) [
          | inl e ↦ rw e (entries_rows-all path es)
          | inr e ↦
              rw e (
                P-append _ _ (folder_rows-all (join_path path name) sub) (entries_rows-all path es))
        ]

-- What is collected of one kind and of another: a predicate on the first that splits gives one on
-- the second that joins, when it does so for each file.
module _ {A B : Type 0} (given : Text → File → List A) (items : Text → File → List B)
    (Q : List A → Type 0) (P : List B → Type 0)
    (Q-split : (xs ys : List A) → Q (xs ++ ys) → Q xs × Q ys) (P-nil : P [])
    (P-append : (xs ys : List B) → P xs → P ys → P (xs ++ ys))
    (P-items : (path : Text) (f : File) → Q (given path f) → P (items path f)) where
  mutual
    unfolding folder_rows

    pub folder_rows-transfer :
        (path : Text) (fd : Folder) → Q (folder_rows given path fd) → P (folder_rows items path fd)
    folder_rows-transfer path (refused code) q = P-nil
    folder_rows-transfer path (opened es) q = entries_rows-transfer path es q

    pub entries_rows-transfer :
        (path : Text) (es : Entries)
        → Q (entries_rows given path es)
        → P (entries_rows items path es)
    entries_rows-transfer path no_more q = P-nil
    entries_rows-transfer path (file_entry f es) q =
        elim (Bool-cases (is_skipped f.name f.hidden)) [
          | inl e ↦ rw e (entries_rows-transfer path es (rw e at q))
          | inr e ↦
              let (here, there) = Q-split (given path f) (entries_rows given path es) (rw e at q) in
              rw e (P-append _ _ (P-items path f here) (entries_rows-transfer path es there))
        ]
    entries_rows-transfer path (folder_entry name hidden sub es) q =
        elim (Bool-cases (is_skipped name hidden)) [
          | inl e ↦ rw e (entries_rows-transfer path es (rw e at q))
          | inr e ↦
              let path' = join_path path name in
              let (here, there) =
                Q-split (folder_rows given path' sub) (entries_rows given path es) (rw e at q) in
              rw e (
                P-append _ _ (folder_rows-transfer path' sub here)
                  (entries_rows-transfer path es there))
        ]

-- A walk each of whose visits does the items of its file, one after another, does those of the
-- folder.
module _ {S T B : Type 0} (visit : Text → File → ℕ → S → ℕ × S) (warn : Text → S → S) (view : S → T)
    (does : List B → T → T) (does-nil : (t : T) → does [] t ≡ t)
    (does-append : (xs ys : List B) (t : T) → does (xs ++ ys) t ≡ does ys (does xs t))
    (items : Text → File → List B)
    (visit-does : (path : Text) (f : File) (i : ℕ) (s : S)
      → let (i', s') = visit path f i s in view s' ≡ does (items path f) (view s))
    (warn-view : (text : Text) (s : S) → view (warn text s) ≡ view s) where
  then_does :
      (s s' s'' : S) (xs ys : List B)
      → view s' ≡ does xs (view s)
      → view s'' ≡ does ys (view s')
      → view s'' ≡ does (xs ++ ys) (view s)
  then_does s s' s'' xs ys e e' = e' ∙ ap (does ys) e ∙ sym (does-append xs ys (view s))

  mutual
    unfolding walk_folder folder_rows

    pub walk_folder-does :
        (path : Text) (fd : Folder) (s : S)
        → view (walk_folder visit warn path fd s) ≡ does (folder_rows items path fd) (view s)
    walk_folder-does path (refused code) s = warn-view _ s ∙ sym (does-nil (view s))
    walk_folder-does path (opened es) s = walk_entries-does path es 0 s

    pub walk_entries-does :
        (path : Text) (es : Entries) (i : ℕ) (s : S)
        → view (walk_entries visit warn path es i s) ≡ does (entries_rows items path es) (view s)
    walk_entries-does path no_more i s = sym (does-nil (view s))
    walk_entries-does path (file_entry f es) i s = elim (Bool-cases (is_skipped f.name f.hidden)) [
      | inl e ↦ rw e (walk_entries-does path es i s)
      | inr e ↦
          let (i', s') = visit path f i s in
          rw e (then_does s s' _ _ _ (visit-does path f i s) (walk_entries-does path es i' s'))
    ]
    walk_entries-does path (folder_entry name hidden sub es) i s =
        elim (Bool-cases (is_skipped name hidden)) [
          | inl e ↦ rw e (walk_entries-does path es i s)
          | inr e ↦
              let s' = walk_folder visit warn (join_path path name) sub s in
              rw e (
                then_does s s' _ _ _ (walk_folder-does (join_path path name) sub s)
                  (walk_entries-does path es i s'))
        ]
