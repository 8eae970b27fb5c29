-- ===== src/Scan/Viruses/Paths.antt =====
-- Which paths the scan of all disks lists, under every order of the steps of its threads.
use process_manger_alpha.Base.{
  ℕ, zero, suc, ◌^◌, Bool-cases, inl, inr, List, [], ◌∷◌, ◌≡◌, refl, leb, list_eq, map, keep, All,
  All-append, All-split, insert_at, modify_at,
}
use process_manger_alpha.Text.{Text}
use process_manger_alpha.ListView.{Row, ListView, row_of, blank, get_cell, set_cell, write_cell}
use process_manger_alpha.Scan.{Folder}
use process_manger_alpha.Scan.Walk.{folder_rows}
use process_manger_alpha.Scan.Collected.{folder_rows-transfer}
use process_manger_alpha.Scan.Viruses.{
  Disk, disk_c, disk_d, disk_f, Op, read_index, insert, write_index, set_path, set_md5, Shared,
  run_op, run,
}
use process_manger_alpha.Scan.Viruses.Alone.{infected_rows}
use process_manger_alpha.Scan.Viruses.Threads.{
  find_steps, file_steps, disk_steps, Trace, stop, first, second, third, ScanRun, root,
}

module _ {A : Type 0} (P : A → Type 0) where
  pub All-insert_at : (i : ℕ) (a : A) (xs : List A) → P a → All P xs → All P (insert_at i a xs)
  All-insert_at zero a xs p h = (p, h)
  All-insert_at (suc i) a [] p h = (p, tt)
  All-insert_at (suc i) a (x ∷ xs) p (px, h) = (px, All-insert_at i a xs p h)

  pub All-modify_at :
      (i : ℕ) (f : A → A) (xs : List A)
      → ((a : A) → P a → P (f a))
      → All P xs
      → All P (modify_at i f xs)
  All-modify_at i f [] k h = tt
  All-modify_at zero f (x ∷ xs) k (px, h) = (k x px, h)
  All-modify_at (suc i) f (x ∷ xs) k (px, h) = (px, All-modify_at i f xs k h)

pub set_cell_here : (s : Text) (texts : List Text) → get_cell 0 (set_cell 0 s texts) ≡ s
set_cell_here s [] = refl
set_cell_here s (t ∷ texts) = refl

pub set_cell_there :
    (s : Text) (texts : List Text) → get_cell 0 (set_cell 1 s texts) ≡ get_cell 0 texts
set_cell_there s [] = refl
set_cell_there s (t ∷ texts) = refl

module _ (P : Text → Type 0) where
  -- What is said of the path in a row, and of the one that a step writes.
  abbrev pub ShowsPath : Row → Type 0
  ShowsPath r = P (get_cell 0 r.cells)

  abbrev SetsPath : Op → Type 0
  SetsPath (set_path k path) = P path
  SetsPath (read_index k) = Unit
  SetsPath (insert k) = Unit
  SetsPath (write_index k) = Unit
  SetsPath (set_md5 k text) = Unit

  Trace-All :
      {left₁ left₂ left₃ xs ys zs ops : List Op}
      → Trace left₁ left₂ left₃ xs ys zs ops
      → All SetsPath xs
      → All SetsPath ys
      → All SetsPath zs
      → All SetsPath ops
  Trace-All stop hx hy hz = tt
  Trace-All (first t) (h, hx) hy hz = (h, Trace-All t hx hy hz)
  Trace-All (second t) hx (h, hy) hz = (h, Trace-All t hx hy hz)
  Trace-All (third t) hx hy (h, hz) = (h, Trace-All t hx hy hz)

  write_path-ShowsPath : (path : Text) (r : Row) → P path → ShowsPath (write_cell 0 path r)
  write_path-ShowsPath path r h = rw (set_cell_here path r.cells) h

  write_md5-ShowsPath : (text : Text) (r : Row) → ShowsPath r → ShowsPath (write_cell 1 text r)
  write_md5-ShowsPath text r h = rw (set_cell_there text r.cells) h

  find_steps-All :
      (k : Disk) (known : List Text) (path text : Text)
      → All ShowsPath (map (λ entry. row_of (path ∷ text ∷ [])) (keep (list_eq text) known))
      → All SetsPath (find_steps k known path text)
  unfolding find_steps
  find_steps-All k [] path text h = tt
  find_steps-All k (entry ∷ known) path text h = elim (Bool-cases (list_eq text entry)) [
    | inl same ↦
        let (here, there) = rw same at h in
        rw same
          (tt, (tt, (tt, (here, (tt, (tt, (tt, (tt, find_steps-All k known path text there))))))))
    | inr other ↦ rw other (find_steps-All k known path text (rw other at h))
  ]

  module _ (v : ListView) (md5 : List ℕ → List ℕ) where
    open v use {rows, rows-insert_item, rows-set_item_text}

    run-ShowsPath :
        (ops : List Op) (s : Shared v md5)
        → P []
        → All SetsPath ops
        → All ShowsPath (rows s.list)
        → All ShowsPath (rows (run v md5 ops s).list)
    unfolding run
    run-ShowsPath [] s none_set sets h = h
    run-ShowsPath (read_index k ∷ ops) s none_set (p, sets) h =
        run-ShowsPath ops (run_op v md5 (read_index k) s) none_set sets h
    run-ShowsPath (insert k ∷ ops) s none_set (p, sets) h =
        run-ShowsPath ops (run_op v md5 (insert k) s) none_set sets (
          rw (rows-insert_item (s.held k) s.list)
            (All-insert_at ShowsPath (s.held k) blank _ none_set h))
    run-ShowsPath (write_index k ∷ ops) s none_set (p, sets) h =
        run-ShowsPath ops (run_op v md5 (write_index k) s) none_set sets h
    run-ShowsPath (set_path k path ∷ ops) s none_set (p, sets) h =
        run-ShowsPath ops (run_op v md5 (set_path k path) s) none_set sets (
          rw (rows-set_item_text (s.held k) 0 path s.list) (
            All-modify_at ShowsPath (s.held k) (write_cell 0 path) _
              (λ r q. write_path-ShowsPath path r p) h))
    run-ShowsPath (set_md5 k text ∷ ops) s none_set (p, sets) h =
        run-ShowsPath ops (run_op v md5 (set_md5 k text) s) none_set sets (
          rw (rows-set_item_text (s.held k) 1 text s.list)
            (All-modify_at ShowsPath (s.held k) (write_cell 1 text) _ (write_md5-ShowsPath text) h))

    disk_steps-All :
        (k : Disk) (known : List Text) (path : Text) (fd : Folder)
        → All ShowsPath (folder_rows (infected_rows v md5 known) path fd)
        → All SetsPath (disk_steps md5 known k path fd)
    unfolding disk_steps
    disk_steps-All k known path fd h =
        folder_rows-transfer (infected_rows v md5 known) (file_steps md5 known k) (All ShowsPath)
          (All SetsPath) (All-split ShowsPath) tt (All-append SetsPath)
          (λ path' f q. elim (Bool-cases (leb (2 ^ 31) f.get_file_size)) [
            | inl large ↦ rw large tt
            | inr small ↦ rw small (find_steps-All k known _ _ (rw small at q))
          ])
          path fd h

    -- Whatever holds of the empty text, of the path of every file on the disks that the list of viruses
    -- has, hidden ones and those of 2 GB or more left out, and of the paths that are listed at the
    -- start, holds of every path that is listed wherever OnClose stops the three threads, whatever
    -- the order of their steps.
    pub ScanRun-ShowsPath :
        (known : List Text) (disks : Disk → Folder) (left₁ left₂ left₃ ops : List Op)
        (s : Shared v md5)
        → P []
        → ((d : Disk) → All ShowsPath (folder_rows (infected_rows v md5 known) (root d) (disks d)))
        → All ShowsPath (rows s.list)
        → ScanRun md5 known disks left₁ left₂ left₃ ops
        → All ShowsPath (rows (run v md5 ops s).list)
    ScanRun-ShowsPath known disks left₁ left₂ left₃ ops s none_set infected before t =
        let sets = λ (d : Disk). disk_steps-All d known (root d) (disks d) (infected d) in
        run-ShowsPath ops s none_set (Trace-All t (sets disk_c) (sets disk_d) (sets disk_f)) before
