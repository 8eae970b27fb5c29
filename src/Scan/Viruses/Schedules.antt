-- ===== src/Scan/Viruses/Schedules.antt =====
-- What the list comes to under every order of the steps of the three threads, and under OnClose.
use process_manger_alpha.Base.{
  ℕ, suc, ◌+◌, ◌-◌, min, ◌≤◌, ◌^◌, Bool, true, false, Bool-cases, inl, inr, List, [], ◌∷◌, ◌++◌,
  ◌≡◌, refl, ap, arith, length, length-append, leb, list_eq,
}
use process_manger_alpha.Text.{Text}
use process_manger_alpha.ListView.{ListView}
use process_manger_alpha.Scan.{Folder}
use process_manger_alpha.Scan.Walk.{folder_rows}
use process_manger_alpha.Scan.Viruses.Alone.{infected_rows, enum_all_lem}
use process_manger_alpha.Scan.Collected.{walk_folder-does}
use process_manger_alpha.Scan.Viruses.{
  Disk, disk_c, disk_d, disk_f, hold, Op, read_index, insert, write_index, set_path, set_md5,
  detect, Shared, run_op, run, list_all, check_all, enum_all, show_error,
}
use process_manger_alpha.Scan.Viruses.Race.{inserts, length-run, length-run_op}
use process_manger_alpha.Scan.Viruses.Threads.{
  find_steps, file_steps, disk_steps, disk_steps-Alternates, Trace, stop, first, second, third,
  Alternates, count_of, ScanRun, root,
}

Trace-inserts :
    {left₁ left₂ left₃ xs ys zs ops : List Op}
    → Trace left₁ left₂ left₃ xs ys zs ops
    → inserts xs + inserts ys + inserts zs
      ≡ inserts ops + (inserts left₁ + inserts left₂ + inserts left₃)
Trace-inserts stop = omega arith
Trace-inserts (first t) = omega (arith, Trace-inserts t)
Trace-inserts (second t) = omega (arith, Trace-inserts t)
Trace-inserts (third t) = omega (arith, Trace-inserts t)

count_of-le : (b : Bool) → count_of b ≤ 1
count_of-le true = omega arith
count_of-le false = omega arith

module _ (v : ListView) (md5 : List ℕ → List ℕ) where
  open v use {Ctrl, rows}

  pub run-append :
      (xs ys : List Op) (s : Shared v md5) → run v md5 (xs ++ ys) s ≡ run v md5 ys (run v md5 xs s)
  unfolding run
  run-append [] ys s = refl
  run-append (op ∷ xs) ys s = run-append xs ys (run_op v md5 op s)

  list_all-run :
      (k : Disk) (known : List Text) (path text : Text) (s : Shared v md5)
      → list_all v md5 k known path text s ≡ run v md5 (find_steps k known path text) s
  unfolding list_all find_steps run
  list_all-run k [] path text s = refl
  list_all-run k (entry ∷ known) path text s = elim (Bool-cases (list_eq text entry)) [
    | inl same ↦
        rw (list_all, same) (list_all-run k known path text (run v md5 (detect k path text) s))
    | inr other ↦ rw (list_all, other) (list_all-run k known path text s)
  ]

  -- A thread alone leaves the list and `nIndex` as its steps, one after another, leave them.
  pub enum_all-run :
      (k : Disk) (known : List Text) (path : Text) (fd : Folder) (s : Shared v md5)
      (boxes : List Text)
      → (enum_all v md5 k known path fd (s, boxes)).0 ≡ run v md5 (disk_steps md5 known k path fd) s
  unfolding enum_all disk_steps
  enum_all-run k known path fd s boxes =
      walk_folder-does (check_all v md5 k known) (show_error v md5) (λ st. st.0) (run v md5)
        (λ t. unfold run in refl) run-append (file_steps md5 known k)
        (λ path' f i (t, shown).
          unfold check_all in
          elim (Bool-cases (leb (2 ^ 31) f.get_file_size)) [
            | inl large ↦ rw large (unfold run in refl)
            | inr small ↦ rw small (list_all-run k known _ _ t)
          ])
        (λ text st. refl) path fd (s, boxes)

  -- `nIndex`, and what the threads have read of it, lie between `low` and `high`, and `nIndex` is
  -- above `low` if `high` is.
  Between : ℕ → ℕ → Shared v md5 → Type 0
  Between low high s =
      (low + min 1 (high - low) ≤ s.n_index)
      × (s.n_index ≤ high)
      × ((k : Disk) → (low ≤ s.held k) × (s.held k ≤ high))

  -- `total` is what `nIndex` would be had no thread written over what another one wrote.
  Counted : ℕ → List Op → List Op → List Op → Shared v md5 → Type 0
  Counted low xs ys zs s =
      (total : ℕ) × (b : Bool) × (c : Bool) × (d : Bool) × Alternates b xs
      × Alternates c ys
      × Alternates d zs
      × Between low total s
      × (length (rows s.list) ≡ total + (count_of b + count_of c + count_of d))

  hold-bounds :
      (low high n : ℕ) (k : Disk) (held : Disk → ℕ)
      → low ≤ n
      → n ≤ high
      → ((j : Disk) → (low ≤ held j) × (held j ≤ high))
      → (j : Disk) → (low ≤ hold k n held j) × (hold k n held j ≤ high)
  hold-bounds low high n disk_c held l h all disk_c = (l, h)
  hold-bounds low high n disk_c held l h all disk_d = all disk_d
  hold-bounds low high n disk_c held l h all disk_f = all disk_f
  hold-bounds low high n disk_d held l h all disk_c = all disk_c
  hold-bounds low high n disk_d held l h all disk_d = (l, h)
  hold-bounds low high n disk_d held l h all disk_f = all disk_f
  hold-bounds low high n disk_f held l h all disk_c = all disk_c
  hold-bounds low high n disk_f held l h all disk_d = all disk_d
  hold-bounds low high n disk_f held l h all disk_f = (l, h)

  -- What a step adds to the rows and to the total is what it changes for its thread.
  step-Alternates :
      (low total : ℕ) (b : Bool) (o : Op) (xs : List Op) (s : Shared v md5)
      → Alternates b (o ∷ xs)
      → Between low total s
      → let s' = run_op v md5 o s in
        (total' : ℕ) × (b' : Bool) × Alternates b' xs
        × Between low total' s'
        × (length (rows s'.list) + total + count_of b ≡ length (rows s.list) + total' + count_of b')
  unfolding Between
  step-Alternates low total b (read_index k) xs s h (l, u, all) = (
    total,
    b,
    h,
    (l, u, hold-bounds low total s.n_index k s.held (omega (arith, l)) u all),
    omega arith,
  )
  step-Alternates low total false (insert k) xs s h m =
      (total, true, h, m, omega (arith, length-run_op v md5 (insert k) s))
  step-Alternates low total false (write_index k) xs s h m = absurd h
  step-Alternates low total false (set_path k path) xs s h m = absurd h
  step-Alternates low total false (set_md5 k text) xs s h m = absurd h
  step-Alternates low total true (insert k) xs s h m = absurd h
  step-Alternates low total true (write_index k) xs s h (l, u, all) = (
    suc total,
    false,
    h,
    (
      omega (arith, (all k).0),
      omega (arith, (all k).1),
      λ j. ((all j).0, omega (arith, (all j).1)),
    ),
    omega arith,
  )
  step-Alternates low total true (set_path k path) xs s h m =
      (total, true, h, m, omega (arith, length-run_op v md5 (set_path k path) s))
  step-Alternates low total true (set_md5 k text) xs s h m =
      (total, true, h, m, omega (arith, length-run_op v md5 (set_md5 k text) s))

  Trace-Counted :
      (low : ℕ) {left₁ left₂ left₃ xs ys zs ops : List Op} (s : Shared v md5)
      → Trace left₁ left₂ left₃ xs ys zs ops
      → Counted low xs ys zs s
      → Counted low left₁ left₂ left₃ (run v md5 ops s)
  unfolding Counted run
  Trace-Counted low s stop h = h
  Trace-Counted low s (first {o} {xs} t) (n, b, c, d, hb, hc, hd, m, e) =
      let (n', b', hb', m', e') = step-Alternates low n b o xs s hb m in
      Trace-Counted low (run_op v md5 o s) t (n', b', c, d, hb', hc, hd, m', omega arith)
  Trace-Counted low s (second {o} {ys} t) (n, b, c, d, hb, hc, hd, m, e) =
      let (n', c', hc', m', e') = step-Alternates low n c o ys s hc m in
      Trace-Counted low (run_op v md5 o s) t (n', b, c', d, hb, hc', hd, m', omega arith)
  Trace-Counted low s (third {o} {zs} t) (n, b, c, d, hb, hc, hd, m, e) =
      let (n', d', hd', m', e') = step-Alternates low n d o zs s hd m in
      Trace-Counted low (run_op v md5 o s) t (n', b, c, d', hb, hc, hd', m', omega arith)

  -- `nIndex` is at the number of rows, and no thread has read it yet: what a thread holds before it
  -- first reads is not used, and the same number stands for it.
  abbrev pub start : Ctrl → Shared v md5
  start c = record { n_index = length (rows c); list = c; held = λ k. length (rows c) }

  ScanRun-Counted :
      (known : List Text) (disks : Disk → Folder) (left₁ left₂ left₃ ops : List Op) (c : Ctrl)
      → ScanRun md5 known disks left₁ left₂ left₃ ops
      → Counted (length (rows c)) left₁ left₂ left₃ (run v md5 ops (start c))
  unfolding Counted Between
  ScanRun-Counted known disks left₁ left₂ left₃ ops c t =
      let n = length (rows c) in
      let alternates = λ (k : Disk). disk_steps-Alternates md5 known k (root k) (disks k) in
      Trace-Counted n (start c) t (
        n,
        false,
        false,
        false,
        alternates disk_c,
        alternates disk_d,
        alternates disk_f,
        (omega arith, omega arith, λ k. (omega arith, omega arith)),
        omega arith,
      )

  -- Wherever OnClose stops the three threads of a scan that starts with `nIndex` at the number of
  -- rows, whatever the order of their steps: the list has one more row for each virus that a thread
  -- has begun to list, and `nIndex` lies between where it started and the number of rows, above where
  -- it started if there are more than three of those rows.
  pub ScanRun-bounded :
      (known : List Text) (disks : Disk → Folder) (left₁ left₂ left₃ ops : List Op) (c : Ctrl)
      → ScanRun md5 known disks left₁ left₂ left₃ ops
      → let s' = run v md5 ops (start c) in
        (length (rows s'.list) ≡ length (rows c) + inserts ops)
        × (length (rows c) + min 1 (inserts ops - 3) ≤ s'.n_index)
        × (s'.n_index ≤ length (rows s'.list))
  unfolding Counted Between
  ScanRun-bounded known disks left₁ left₂ left₃ ops c t =
      let (n, b, b', b'', hb, hc, hd, (low, high, all), e) =
        ScanRun-Counted known disks left₁ left₂ left₃ ops c t in
      let more = length-run v md5 ops (start c) in
      (
        more,
        omega (arith, low, e, more, count_of-le b, count_of-le b', count_of-le b''),
        omega arith,
      )

  -- The steps of a thread put in a row for each entry that the MD5 of a file on its disk is equal to.
  inserts-disk_steps :
      (k : Disk) (known : List Text) (c : Ctrl) (path : Text) (fd : Folder)
      → inserts (disk_steps md5 known k path fd)
        ≡ length (folder_rows (infected_rows v md5 known) path fd)
  inserts-disk_steps k known c path fd =
      let new = folder_rows (infected_rows v md5 known) path fd in
      let (alone, counted) = enum_all_lem v md5 k known path fd (start c) [] refl in
      omega (
        arith,
        length-run v md5 (disk_steps md5 known k path fd) (start c),
        ap (λ t. length (rows t.list)) (enum_all-run k known path fd (start c) []),
        ap length alone,
        length-append (rows c) new,
      )

  -- When the three threads of a scan that starts with `nIndex` at the number of rows are all through,
  -- whatever the order of their steps: the list has one more row for each file on the disks, hidden
  -- ones and those of 2 GB or more left out, and each entry that its MD5 is equal to, and
  -- `nIndex` lies between where it started and the number of rows, above where it started if there
  -- are such rows.
  pub ScanRun-complete :
      (known : List Text) (disks : Disk → Folder) (ops : List Op) (c : Ctrl)
      → ScanRun md5 known disks [] [] [] ops
      → let s' = run v md5 ops (start c) in
        let found =
          λ (d : Disk). length (folder_rows (infected_rows v md5 known) (root d) (disks d)) in
        let new = found disk_c + found disk_d + found disk_f in
        (length (rows s'.list) ≡ length (rows c) + new)
        × (length (rows c) + min 1 new ≤ s'.n_index)
        × (s'.n_index ≤ length (rows s'.list))
  unfolding Counted Between
  ScanRun-complete known disks ops c t =
      let every = λ (k : Disk). inserts-disk_steps k known c (root k) (disks k) in
      let (n, b, b', b'', hb, hc, hd, (low, high, all), e) =
        ScanRun-Counted known disks [] [] [] ops c t in
      let more = length-run v md5 ops (start c) in
      let through : length (rows (run v md5 ops (start c)).list) ≡ n =
        omega (arith, e, ap count_of hb, ap count_of hc, ap count_of hd) in
      (
        omega (arith, more, Trace-inserts t, every disk_c, every disk_d, every disk_f),
        omega
            (arith, low, through, more, Trace-inserts t, every disk_c, every disk_d, every disk_f),
        omega (arith, through, high),
      )
