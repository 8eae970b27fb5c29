-- ===== src/Scan/Viruses/Race.antt =====
-- The threads of the scan of all disks: what a thread lists when it runs alone, and what two of them
-- may come to together.
use process_manger_alpha.Base.{
  ℕ, suc, ◌+◌, List, [], ◌∷◌, ◌++◌, ◌≡◌, refl, sym, ap, ◌∙◌, arith, length, length-append,
  insert_at-length, insert_at-append_length, modify_at-append_length, length-insert_at,
  length-modify_at, Bool-cases, inl, inr, keep, list_eq, map, append_assoc, append-nil,
}
use process_manger_alpha.Text.{Text}
use process_manger_alpha.ListView.{ListView, row_of, blank, write_cell}
use process_manger_alpha.Scan.Viruses.{
  Disk, disk_c, disk_d, disk_f, Op, read_index, insert, write_index, set_path, set_md5, detect,
  Shared, run_op, run, list_all,
}

-- The steps of two threads, each in its own order, as they may come one after another.
pub data Interleaving : List Op → List Op → List Op → Type 0 where
  finished : Interleaving [] [] []
  left : {o : Op} {xs ys zs : List Op} → Interleaving xs ys zs → Interleaving (o ∷ xs) ys (o ∷ zs)
  right : {o : Op} {xs ys zs : List Op} → Interleaving xs ys zs → Interleaving xs (o ∷ ys) (o ∷ zs)

-- The rows that these steps put in.
abbrev pub is_insert : Op → ℕ
is_insert (read_index k) = 0
is_insert (insert k) = 1
is_insert (set_path k path) = 0
is_insert (set_md5 k text) = 0
is_insert (write_index k) = 0

abbrev pub inserts : List Op → ℕ
inserts [] = 0
inserts (o ∷ ops) = is_insert o + inserts ops

inserts-Interleaving :
    {xs ys zs : List Op} → Interleaving xs ys zs → inserts zs ≡ inserts xs + inserts ys
inserts-Interleaving finished = omega arith
inserts-Interleaving (left t) = omega (arith, inserts-Interleaving t)
inserts-Interleaving (right t) = omega (arith, inserts-Interleaving t)

-- Two threads in turn, one step each.
abbrev pub both_in_turn : Text → Text → Text → Text → List Op
both_in_turn path path' text text' =
    read_index disk_c
    ∷ read_index disk_d
    ∷ insert disk_c
    ∷ insert disk_d
    ∷ read_index disk_c
    ∷ read_index disk_d
    ∷ set_path disk_c path
    ∷ set_path disk_d path'
    ∷ read_index disk_c
    ∷ read_index disk_d
    ∷ set_md5 disk_c text
    ∷ set_md5 disk_d text'
    ∷ read_index disk_c
    ∷ read_index disk_d
    ∷ write_index disk_c
    ∷ write_index disk_d
    ∷ []

module _ (v : ListView) (md5 : List ℕ → List ℕ) where
  open v use {Ctrl, rows, insert_item, set_item_text, rows-insert_item, rows-set_item_text}

  -- What a step does to the rows in number.
  pub length-run_op :
      (o : Op) (s : Shared v md5)
      → length (rows (run_op v md5 o s).list) ≡ length (rows s.list) + is_insert o
  length-run_op (read_index k) s = omega arith
  length-run_op (insert k) s = omega (
    arith,
    ap length (rows-insert_item (s.held k) s.list),
    length-insert_at (s.held k) blank (rows s.list),
  )
  length-run_op (set_path k path) s = omega (
    arith,
    ap length (rows-set_item_text (s.held k) 0 path s.list),
    length-modify_at (s.held k) (write_cell 0 path) (rows s.list),
  )
  length-run_op (set_md5 k text) s = omega (
    arith,
    ap length (rows-set_item_text (s.held k) 1 text s.list),
    length-modify_at (s.held k) (write_cell 1 text) (rows s.list),
  )
  length-run_op (write_index k) s = omega arith

  pub length-run :
      (ops : List Op) (s : Shared v md5)
      → length (rows (run v md5 ops s).list) ≡ length (rows s.list) + inserts ops
  unfolding run
  length-run [] s = omega arith
  length-run (o ∷ ops) s = omega (arith, length-run_op o s, length-run ops (run_op v md5 o s))

  -- However the steps of two threads are mixed, the list ends up with one more row for each virus
  -- that either of them has found.
  pub run-Interleaving :
      {xs ys zs : List Op} (s : Shared v md5)
      → Interleaving xs ys zs
      → length (rows (run v md5 zs s).list) ≡ length (rows s.list) + (inserts xs + inserts ys)
  run-Interleaving {zs} s t =
      length-run zs s ∙ ap (λ n. length (rows s.list) + n) (inserts-Interleaving t)

  -- The steps for a virus, when no other thread has one between them.
  pub run-detect_calls :
      (k : Disk) (path text : Text) (s : Shared v md5)
      → let s' = run v md5 (detect k path text) s in
        (s'.list
          ≡ set_item_text s.n_index 1 text
              (set_item_text s.n_index 0 path (insert_item s.n_index s.list)))
        × (s'.n_index ≡ suc s.n_index)
  unfolding run
  run-detect_calls disk_c path text s = (refl, refl)
  run-detect_calls disk_d path text s = (refl, refl)
  run-detect_calls disk_f path text s = (refl, refl)

  -- When every step finds `nIndex` at the number of rows, a virus is listed behind the last row.
  run-detect :
      (k : Disk) (path text : Text) (s : Shared v md5)
      → s.n_index ≡ length (rows s.list)
      → let s' = run v md5 (detect k path text) s in
        (rows s'.list ≡ rows s.list ++ row_of (path ∷ text ∷ []) ∷ [])
        × (s'.n_index ≡ length (rows s'.list))
  run-detect k path text s e =
      let xs = rows s.list in
      let (calls, counted) = run-detect_calls k path text s in
      let put : rows (insert_item s.n_index s.list) ≡ xs ++ blank ∷ [] =
        rows-insert_item s.n_index s.list ∙ rw e (insert_at-length blank xs) in
      let named : rows (set_item_text s.n_index 0 path (insert_item s.n_index s.list))
          ≡ xs ++ row_of (path ∷ []) ∷ [] =
        rows-set_item_text s.n_index 0 path _
        ∙ rw (put, e) (modify_at-append_length (write_cell 0 path) xs blank []) in
      let done : rows (run v md5 (detect k path text) s).list
          ≡ xs ++ row_of (path ∷ text ∷ []) ∷ [] =
        ap rows calls
        ∙ rows-set_item_text s.n_index 1 text _
        ∙ rw (named, e) (modify_at-append_length (write_cell 1 text) xs (row_of (path ∷ [])) []) in
      (
        done,
        omega
            (arith, counted, e, ap length done, length-append xs (row_of (path ∷ text ∷ []) ∷ [])),
      )

  -- A thread that runs alone, with `nIndex` at the number of rows, lists a file behind the last
  -- row, once for each entry of the list of viruses that is its MD5, and keeps `nIndex` at the
  -- number of rows.
  pub list_all_lem :
      (k : Disk) (known : List Text) (path text : Text) (s : Shared v md5)
      → s.n_index ≡ length (rows s.list)
      → let s' = list_all v md5 k known path text s in
        (rows s'.list
          ≡ rows s.list ++ map (λ entry. row_of (path ∷ text ∷ [])) (keep (list_eq text) known))
        × (s'.n_index ≡ length (rows s'.list))
  unfolding list_all
  list_all_lem k [] path text s e = (sym (append-nil (rows s.list)), e)
  list_all_lem k (entry ∷ known) path text s e = elim (Bool-cases (list_eq text entry)) [
    | inl same ↦
        let (done, e') = run-detect k path text s e in
        let (rest, e'') = list_all_lem k known path text (run v md5 (detect k path text) s) e' in
        rw (list_all, same)
          (rest ∙ rw done (append_assoc (rows s.list) (row_of (path ∷ text ∷ []) ∷ []) _), e'')
    | inr other ↦ rw (list_all, other) (list_all_lem k known path text s e)
  ]

  -- With `nIndex` at the number of rows, the threads of the first two disks that each find a virus can
  -- come, by some order of their steps, to a list that has a row for one of the two files and a blank
  -- row instead of the other, with `nIndex` raised only once.
  pub run-race :
      (path path' text text' : Text) (s : Shared v md5)
      → s.n_index ≡ length (rows s.list)
      → (ops : List Op) × Interleaving (detect disk_c path text) (detect disk_d path' text') ops
        × (rows (run v md5 ops s).list ≡ rows s.list ++ row_of (path' ∷ text' ∷ []) ∷ blank ∷ [])
        × ((run v md5 ops s).n_index ≡ suc s.n_index)
  unfolding run
  run-race path path' text text' s e =
      let xs = rows s.list in
      let i = s.n_index in
      let c₁ = insert_item i s.list in
      let c₂ = insert_item i c₁ in
      let c₃ = set_item_text i 0 path c₂ in
      let c₄ = set_item_text i 0 path' c₃ in
      let c₅ = set_item_text i 1 text c₄ in
      let r₁ : rows c₁ ≡ xs ++ blank ∷ [] =
        rows-insert_item i s.list ∙ rw e (insert_at-length blank xs) in
      let r₂ : rows c₂ ≡ xs ++ blank ∷ blank ∷ [] =
        rows-insert_item i c₁ ∙ rw (r₁, e) (insert_at-append_length blank xs (blank ∷ [])) in
      let r₃ : rows c₃ ≡ xs ++ row_of (path ∷ []) ∷ blank ∷ [] =
        rows-set_item_text i 0 path c₂
        ∙ rw (r₂, e) (modify_at-append_length (write_cell 0 path) xs blank (blank ∷ [])) in
      let r₄ : rows c₄ ≡ xs ++ row_of (path' ∷ []) ∷ blank ∷ [] =
        rows-set_item_text i 0 path' c₃
        ∙ rw (r₃, e) (modify_at-append_length (write_cell 0 path') xs _ (blank ∷ [])) in
      let r₅ : rows c₅ ≡ xs ++ row_of (path' ∷ text ∷ []) ∷ blank ∷ [] =
        rows-set_item_text i 1 text c₄
        ∙ rw (r₄, e) (modify_at-append_length (write_cell 1 text) xs _ (blank ∷ [])) in
      (
        both_in_turn path path' text text',
        left (
            right (
              left (
                right (
                  left (
                    right (
                      left (
                        right (
                          left
                            (right (left (right (left (right (left (right finished))))))))))))))),
        rows-set_item_text i 1 text' c₅
            ∙ rw (r₅, e) (modify_at-append_length (write_cell 1 text') xs _ (blank ∷ [])),
        refl,
      )
