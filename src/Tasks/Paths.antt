-- ===== src/Tasks/Paths.antt =====
-- The path of a process: getProcFullPath and DosPath2NTPath of
-- ProcessMangerAlpha/ProcessMangerAlphaDlg.cpp. What GetLogicalDriveStrings, QueryDosDevice and
-- GetProcessImageFileName answer is an argument.
use process_manger_alpha.Base.{
  ℕ, ◌+◌, ◌==◌, ◌≡◌, ◌⊎◌, refl, Bool, true, false, ◌||◌, ◌&&◌, if◌then◌else◌, leb, Option, some,
  none, List, [], ◌∷◌, ◌++◌, take, drop, length, list_eq, All, Bool-cases, inl, inr, arith, map,
}
use process_manger_alpha.Text.{Text, codes}

-- A letter without its case.
abbrev pub fold : ℕ → ℕ
fold c = if leb b'A' c && leb c b'Z' then c + 32 else c

-- `lstrcmpi(a, b) == 0`
unfoldable pub same_folded : Text → Text → Bool
same_folded a b = list_eq (map fold a) (map fold b)

-- `_tcsnicmp(path, device, lstrlen(device)) == 0`
unfoldable pub begins_with : Text → Text → Bool
begins_with path [] = true
begins_with [] (c ∷ device) = false
begins_with (x ∷ path) (c ∷ device) = fold x == fold c && begins_with path device

-- The loop over the drives, such as `C:\`. The result is what is returned, and NTPath, which is empty
-- at first. A drive whose device cannot be queried ends it.
unfoldable pub search_drives : (Text → Option Text) → Text → List Text → Bool × Text
unfolding same_folded begins_with
search_drives query_dos_device dos_path [] = (false, dos_path)
search_drives query_dos_device dos_path (drive ∷ drives) =
    let later = search_drives query_dos_device dos_path drives in
    let sz_drive = take 2 drive in
    let this = elim (query_dos_device sz_drive) as (λ _. Bool × Text) [
      | none ↦ (false, [])
      | some device ↦
          if begins_with dos_path device
          then (true, sz_drive ++ drop (length device) dos_path)
          else later
    ] in
    if same_folded drive (codes "A:\\") || same_folded drive (codes "B:\\") then later else this

-- With no drives the path itself is copied.
unfoldable pub dos_path2_ntpath : Option (List Text) → (Text → Option Text) → Text → Bool × Text
unfolding search_drives
dos_path2_ntpath none query_dos_device dos_path = (false, dos_path)
dos_path2_ntpath (some drives) query_dos_device dos_path =
    search_drives query_dos_device dos_path drives

-- The image name of a process that can be opened, and has one. `FALSE` becomes an empty text.
unfoldable pub get_proc_full_path : Option (List Text) → (Text → Option Text) → Option Text → Text
unfolding dos_path2_ntpath
get_proc_full_path drives query_dos_device none = []
get_proc_full_path drives query_dos_device (some image) =
    let (found, full_path) = dos_path2_ntpath drives query_dos_device image in
    if found then full_path else []

-- A drive that the search goes past: a floppy, or a device that the path does not begin with.
abbrev pub IsPassed : (Text → Option Text) → Text → Text → Type 0
IsPassed query path drive =
    ((same_folded drive (codes "A:\\") || same_folded drive (codes "B:\\")) ≡ true)
    ⊎ ((device : Text) × (query (take 2 drive) ≡ some device) × (begins_with path device ≡ false))

abbrev pub IsFixed : Text → Type 0
IsFixed drive = (same_folded drive (codes "A:\\") || same_folded drive (codes "B:\\")) ≡ false

search_drives-passed :
    (query : Text → Option Text) (path : Text) (before drives : List Text)
    → All (IsPassed query path) before
    → search_drives query path (before ++ drives) ≡ search_drives query path drives
unfolding search_drives
search_drives-passed query path [] drives h = refl
search_drives-passed query path (drive ∷ before) drives (inl floppy, h) =
    rw (search_drives, floppy) (search_drives-passed query path before drives h)
search_drives-passed query path (drive ∷ before) drives (inr (device, asked, other), h) =
    elim (Bool-cases (same_folded drive (codes "A:\\") || same_folded drive (codes "B:\\"))) [
      | inl floppy ↦ rw (search_drives, floppy) (search_drives-passed query path before drives h)
      | inr fixed ↦
          rw (search_drives, fixed, asked, other) (search_drives-passed query path before drives h)
    ]

begins_with-append : (device rest : Text) → begins_with (device ++ rest) device ≡ true
unfolding begins_with
begins_with-append [] rest = refl
begins_with-append (c ∷ device) rest =
    let same : (fold c == fold c) ≡ true = ground arith in rw same (begins_with-append device rest)

drop-append : (xs ys : Text) → drop (length xs) (xs ++ ys) ≡ ys
drop-append [] ys = refl
drop-append (x ∷ xs) ys = drop-append xs ys

-- A path that begins with the name of a drive's device, where the search goes past the drives in front
-- of it: the name is replaced by the drive, whatever comes behind the name.
pub get_proc_full_path_found :
    (query : Text → Option Text) (before after : List Text) (drive device rest : Text)
    → All (IsPassed query (device ++ rest)) before
    → IsFixed drive
    → query (take 2 drive) ≡ some device
    → get_proc_full_path (some (before ++ drive ∷ after)) query (some (device ++ rest))
      ≡ take 2 drive ++ rest
unfolding get_proc_full_path dos_path2_ntpath search_drives
get_proc_full_path_found query before after drive device rest h fixed asked =
    rw
      (
        search_drives-passed query (device ++ rest) before (drive ∷ after) h,
        search_drives,
        fixed,
        asked,
        begins_with-append device rest,
        drop-append device rest,
      )
      refl

-- Where the search ends without a result: behind the last drive, or at one whose device cannot be
-- queried.
abbrev pub Ends : (Text → Option Text) → List Text → Type 0
Ends query [] = Unit {0}
Ends query (drive ∷ after) = IsFixed drive × (query (take 2 drive) ≡ none)

-- A path that begins with the device of no drive, up to the end of the drives or to one whose device
-- cannot be queried: the text is empty, although at the end of the drives the path was copied.
pub get_proc_full_path_missing :
    (query : Text → Option Text) (before after : List Text) (path : Text)
    → All (IsPassed query path) before
    → Ends query after
    → get_proc_full_path (some (before ++ after)) query (some path) ≡ []
unfolding get_proc_full_path dos_path2_ntpath search_drives
get_proc_full_path_missing query before [] path h e =
    rw (search_drives-passed query path before [] h) refl
get_proc_full_path_missing query before (drive ∷ after) path h (fixed, asked) =
    rw (search_drives-passed query path before (drive ∷ after) h, search_drives, fixed, asked) refl
