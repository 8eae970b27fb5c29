-- ===== src/Scan/Viruses/Threads.antt =====
-- The scan of all disks as it runs (ProcessMangerAlpha/CAllKillingDialog.cpp): a thread for each disk
-- (allKillingFilesProc1 to 3), whose steps on the shared list and the shared `nIndex` come in any
-- order, until all threads are through or OnClose terminates them where they are. A step reads
-- `nIndex`, writes it, or is a call on the list, which the window's own thread carries out.
use process_manger_alpha.Base.{
  ℕ, ◌^◌, Bool, true, false, Bool-cases, inl, inr, List, [], ◌∷◌, ◌++◌, ◌≡◌, refl, if◌then◌else◌,
  leb, list_eq,
}
use process_manger_alpha.Text.{Text, codes, upper}
use process_manger_alpha.Scan.{File, Folder, join_path}
use process_manger_alpha.Scan.Walk.{folder_rows}
use process_manger_alpha.Scan.Collected.{folder_rows-all}
use process_manger_alpha.Scan.Viruses.{
  Disk, disk_c, disk_d, disk_f, Op, read_index, insert, write_index, set_path, set_md5, detect,
  digest_text,
}

-- The steps that the thread of a disk takes for a file with this text of its MD5, and for a file.
unfoldable pub find_steps : Disk → List Text → Text → Text → List Op
find_steps k [] path text = []
find_steps k (entry ∷ known) path text =
    (if list_eq text entry then detect k path text else []) ++ find_steps k known path text

module _ (md5 : List ℕ → List ℕ) (known : List Text) (k : Disk) where
  unfoldable pub file_steps : Text → File → List Op
  unfolding find_steps
  file_steps path f =
      if leb (2 ^ 31) f.get_file_size
      then []
      else find_steps k known (join_path path f.name) (digest_text upper (md5 f.content))

  -- The steps of the thread: those of the files below its disk, in the order of the walk.
  unfoldable pub disk_steps : Text → Folder → List Op
  unfolding file_steps
  disk_steps path fd = folder_rows file_steps path fd

abbrev pub root : Disk → Text
root disk_c = codes "C:"
root disk_d = codes "D:"
root disk_f = codes "F:"

-- The steps that are done, in order, of three threads with these steps to take, when they leave
-- `left₁`, `left₂` and `left₃`.
pub data Trace (left₁ left₂ left₃ : List Op) : List Op → List Op → List Op → List Op → Type 0 where
  stop : Trace left₁ left₂ left₃ left₁ left₂ left₃ []
  first :
      {o : Op} {xs ys zs ops : List Op}
      → Trace left₁ left₂ left₃ xs ys zs ops
      → Trace left₁ left₂ left₃ (o ∷ xs) ys zs (o ∷ ops)
  second :
      {o : Op} {xs ys zs ops : List Op}
      → Trace left₁ left₂ left₃ xs ys zs ops
      → Trace left₁ left₂ left₃ xs (o ∷ ys) zs (o ∷ ops)
  third :
      {o : Op} {xs ys zs ops : List Op}
      → Trace left₁ left₂ left₃ xs ys zs ops
      → Trace left₁ left₂ left₃ xs ys (o ∷ zs) (o ∷ ops)

-- The runs of the three threads, from disks with these folders on.
abbrev pub ScanRun :
    (List ℕ → List ℕ) → List Text → (Disk → Folder) → List Op → List Op → List Op → List Op → Type 0
ScanRun md5 known disks left₁ left₂ left₃ ops =
    Trace left₁ left₂ left₃ (disk_steps md5 known disk_c (root disk_c) (disks disk_c))
      (disk_steps md5 known disk_d (root disk_d) (disks disk_d))
      (disk_steps md5 known disk_f (root disk_f) (disks disk_f)) ops

-- A thread with these steps to take: `true` when it has put in a row that it has not counted yet.
abbrev pub Alternates : Bool → List Op → Type 0
Alternates b [] = b ≡ false
Alternates b (read_index k ∷ ops) = Alternates b ops
Alternates false (insert k ∷ ops) = Alternates true ops
Alternates false (write_index k ∷ ops) = ⊥
Alternates false (set_path k path ∷ ops) = ⊥
Alternates false (set_md5 k text ∷ ops) = ⊥
Alternates true (insert k ∷ ops) = ⊥
Alternates true (write_index k ∷ ops) = Alternates false ops
Alternates true (set_path k path ∷ ops) = Alternates true ops
Alternates true (set_md5 k text ∷ ops) = Alternates true ops

abbrev pub count_of : Bool → ℕ
count_of true = 1
count_of false = 0

Alternates-append :
    (b : Bool) (xs ys : List Op) → Alternates b xs → Alternates false ys → Alternates b (xs ++ ys)
Alternates-append false [] ys h k = k
Alternates-append true [] ys h k = cc
Alternates-append false (read_index d ∷ xs) ys h k = Alternates-append false xs ys h k
Alternates-append true (read_index d ∷ xs) ys h k = Alternates-append true xs ys h k
Alternates-append false (insert d ∷ xs) ys h k = Alternates-append true xs ys h k
Alternates-append false (write_index d ∷ xs) ys h k = absurd h
Alternates-append false (set_path d path ∷ xs) ys h k = absurd h
Alternates-append false (set_md5 d text ∷ xs) ys h k = absurd h
Alternates-append true (insert d ∷ xs) ys h k = absurd h
Alternates-append true (write_index d ∷ xs) ys h k = Alternates-append false xs ys h k
Alternates-append true (set_path d path ∷ xs) ys h k = Alternates-append true xs ys h k
Alternates-append true (set_md5 d text ∷ xs) ys h k = Alternates-append true xs ys h k

find_steps-Alternates :
    (k : Disk) (known : List Text) (path text : Text)
    → Alternates false (find_steps k known path text)
unfolding find_steps
find_steps-Alternates k [] path text = refl
find_steps-Alternates k (entry ∷ known) path text = elim (Bool-cases (list_eq text entry)) [
  | inl same ↦ rw same (find_steps-Alternates k known path text)
  | inr other ↦ rw other (find_steps-Alternates k known path text)
]

pub disk_steps-Alternates :
    (md5 : List ℕ → List ℕ) (known : List Text) (k : Disk) (path : Text) (fd : Folder)
    → Alternates false (disk_steps md5 known k path fd)
unfolding disk_steps
disk_steps-Alternates md5 known k path fd =
    folder_rows-all (file_steps md5 known k) (Alternates false) refl (Alternates-append false)
      (λ path' f. elim (Bool-cases (leb (2 ^ 31) f.get_file_size)) [
        | inl large ↦ rw large
        | inr small ↦ rw small (find_steps-Alternates k known _ _)
      ])
      path fd
