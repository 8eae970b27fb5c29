-- ===== src/Scan/Viruses/ByPath.antt =====
-- Where the scan of a folder puts what it finds.
use process_manger_alpha.Base.{
  ℕ, suc, ◌+◌, ◌≤◌, ◌<◌, ◌^◌, true, false, leb, List, [], ◌∷◌, ◌++◌, ◌≡◌, refl, ap, ◌∙◌, arith,
  length, insert_at, All, list_eq,
}
use process_manger_alpha.Text.{Text, lower}
use process_manger_alpha.ListView.{ListView, row_of, blank}
use process_manger_alpha.ListView.Rows.{insert_row, rows-insert_row, rows-insert_row_past}
use process_manger_alpha.Scan.{File, join_path}
use process_manger_alpha.Scan.Viruses.{digest_text, list_by_path, check_by_path}

-- No entry of the list is this text.
abbrev pub Misses : Text → List Text → Type 0
Misses text known = All (λ entry. list_eq text entry ≡ false) known

module _ (v : ListView) where
  open v use {Ctrl, rows, insert_item, set_item_text, rows-insert_item, rows-set_item_text}

  module _ (md5 : List ℕ → List ℕ) where
    list_by_path-Misses :
        (known : List Text) (index : ℕ) (path text : Text) (c : Ctrl)
        → Misses text known
        → list_by_path v md5 known index path text c ≡ c
    unfolding list_by_path
    list_by_path-Misses [] index path text c m = refl
    list_by_path-Misses (entry ∷ known) index path text c (other, m) =
        rw (list_by_path, other) (list_by_path-Misses known (suc index) path text c m)

    list_by_path-one :
        (before after : List Text) (entry : Text) (index : ℕ) (path text : Text) (c : Ctrl)
        → Misses text before
        → list_eq text entry ≡ true
        → Misses text after
        → list_by_path v md5 (before ++ entry ∷ after) index path text c
          ≡ insert_row v (index + length before) (path ∷ text ∷ []) c
    unfolding list_by_path
    list_by_path-one [] after entry index path text c b e a =
        rw (list_by_path, e)
          (list_by_path-Misses after (suc index) path text _ a
            ∙ ap (λ i. insert_row v i (path ∷ text ∷ []) c) (omega arith))
    list_by_path-one (x ∷ before) after entry index path text c (other, b) e a =
        rw (list_by_path, other)
          (list_by_path-one before after entry (suc index) path text c b e a
            ∙ ap (λ i. insert_row v i (path ∷ text ∷ []) c) (omega arith))

    check_by_path-one :
        (before after : List Text) (entry path : Text) (f : File) (i : ℕ) (c : Ctrl)
        (boxes : List Text)
        → f.get_file_size < 2 ^ 31
        → Misses (digest_text lower (md5 f.content)) before
        → list_eq (digest_text lower (md5 f.content)) entry ≡ true
        → Misses (digest_text lower (md5 f.content)) after
        → check_by_path v md5 (before ++ entry ∷ after) path f i (c, boxes) ≡ (
          i,
          (
            insert_row v
                (length before)
                (join_path path f.name ∷ digest_text lower (md5 f.content) ∷ [])
                c,
            boxes,
          ),
        )
    unfolding check_by_path
    check_by_path-one before after entry path f i c boxes small b e a =
        let large : leb (2 ^ 31) f.get_file_size ≡ false = ground arith in
        rw large (
          ap {A = Ctrl} (λ c'. (i, (c', boxes)))
            (list_by_path-one before after entry 0 (join_path path f.name)
                (digest_text lower (md5 f.content)) c b e a
              ∙ ap
                  (λ k.
                    insert_row v k (join_path path f.name ∷ digest_text lower (md5 f.content) ∷ [])
                      c)
                  (omega arith)))

    -- A file below 2 GB whose MD5 is one entry of the list of viruses: when the list control has as
    -- many rows as there are entries before that one, at least, a row with the file's path and its
    -- MD5 goes in at that place.
    pub check_by_path_shown :
        (before after : List Text) (entry path : Text) (f : File) (i : ℕ) (c : Ctrl)
        (boxes : List Text)
        → f.get_file_size < 2 ^ 31
        → Misses (digest_text lower (md5 f.content)) before
        → list_eq (digest_text lower (md5 f.content)) entry ≡ true
        → Misses (digest_text lower (md5 f.content)) after
        → length before ≤ length (rows c)
        → let (i', (c', boxes')) =
            check_by_path v md5 (before ++ entry ∷ after) path f i (c, boxes) in
          rows c'
          ≡ insert_at
              (length before)
              (row_of (join_path path f.name ∷ digest_text lower (md5 f.content) ∷ []))
              (rows c)
    check_by_path_shown before after entry path f i c boxes small b e a room =
        ap (λ r. rows r.1.0) (check_by_path-one before after entry path f i c boxes small b e a)
        ∙ rows-insert_row v (length before) _ c room

    -- A file below 2 GB whose MD5 is one entry of the list of viruses, when the list control has
    -- fewer rows than there are entries before that one: the path is lost, and a blank row comes
    -- behind the others.
    pub check_by_path_lost :
        (before after : List Text) (entry path : Text) (f : File) (i : ℕ) (c : Ctrl)
        (boxes : List Text)
        → f.get_file_size < 2 ^ 31
        → Misses (digest_text lower (md5 f.content)) before
        → list_eq (digest_text lower (md5 f.content)) entry ≡ true
        → Misses (digest_text lower (md5 f.content)) after
        → length (rows c) < length before
        → let (i', (c', boxes')) =
            check_by_path v md5 (before ++ entry ∷ after) path f i (c, boxes) in
          rows c' ≡ rows c ++ blank ∷ []
    check_by_path_lost before after entry path f i c boxes small b e a room =
        ap (λ r. rows r.1.0) (check_by_path-one before after entry path f i c boxes small b e a)
        ∙ rows-insert_row_past v (length before) _ c room
