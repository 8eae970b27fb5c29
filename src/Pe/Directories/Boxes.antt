-- ===== src/Pe/Directories/Boxes.antt =====
-- What the boxes of the directory list hold, and when the list cannot be shown.
use process_manger_alpha.Base.{
  length-modify_at, ℕ, zero, suc, ◌+◌, ◌≤◌, ◌<◌, ◌≡◌, ◌≢◌, refl, ap, ◌∙◌, arith, none, some, List,
  [], ◌∷◌, length, get_elem?, modify_at, ltb, Option-cases, Bool-cases, ltb→lt, inl, inr,
}
use process_manger_alpha.Text.{Text, format_hex_padded}
use process_manger_alpha.Pe.Image.{Image, dword_at}
use process_manger_alpha.Pe.Globals.{Globals, ◌>>=◌}
use process_manger_alpha.Pe.Headers.{directory_rva, directory_size, nt_head, opt_head_of}
use process_manger_alpha.Pe.Tables.{load_opt_head}
use process_manger_alpha.Pe.Directories.{set_box, fill_entry, fill_entries, init_directories}

module _ {ℓ} {A : Type ℓ} where
  get_elem?-modify_at_ne :
      (i j : ℕ) (f : A → A) (xs : List A) → i ≢ j → get_elem? (modify_at i f xs) j ≡ get_elem? xs j
  get_elem?-modify_at_ne i j f [] h = refl
  get_elem?-modify_at_ne zero zero f (x ∷ xs) h = absurd (h refl)
  get_elem?-modify_at_ne zero (suc j) f (x ∷ xs) h = refl
  get_elem?-modify_at_ne (suc i) zero f (x ∷ xs) h = refl
  get_elem?-modify_at_ne (suc i) (suc j) f (x ∷ xs) h =
      get_elem?-modify_at_ne i j f xs (λ e. h (ap suc e))

  get_elem?-modify_at_self :
      (i : ℕ) (a : A) (xs : List A) → i < length xs → get_elem? (modify_at i (λ _. a) xs) i ≡ some a
  get_elem?-modify_at_self i a [] h = elim h [ ]
  get_elem?-modify_at_self zero a (x ∷ xs) h = refl
  get_elem?-modify_at_self (suc i) a (x ∷ xs) h = get_elem?-modify_at_self i a xs (omega arith)

-- The entries from `i` on, as they stand in the file: pairs of an address and a size.
abbrev pub HasEntries : Image → ℕ → ℕ → List (ℕ × ℕ) → Type 0
HasEntries img opt i [] = Unit
HasEntries img opt i (e ∷ es) =
    (directory_rva img opt i ≡ some e.0)
    × (directory_size img opt i ≡ some e.1)
    × HasEntries img opt (suc i) es

-- The boxes of the entries from `i` on show them.
abbrev pub Shows : List Text → ℕ → List (ℕ × ℕ) → Type 0
Shows boxes i [] = Unit
Shows boxes i (e ∷ es) =
    (get_elem? boxes i ≡ some (format_hex_padded 8 e.0))
    × (get_elem? boxes (i + 16) ≡ some (format_hex_padded 8 e.1))
    × Shows boxes (suc i) es

-- The boxes of the entry `j` are as before.
abbrev Keeps : ℕ → List Text → List Text → Type 0
Keeps j old new =
    (get_elem? new j ≡ get_elem? old j) × (get_elem? new (j + 16) ≡ get_elem? old (j + 16))

abbrev after_entry : ℕ → ℕ × ℕ → List Text → List Text
after_entry i e boxes =
    modify_at (i + 16) (λ _. format_hex_padded 8 e.1)
      (modify_at i (λ _. format_hex_padded 8 e.0) boxes)

fill_entry_lem :
    (img : Image) (opt i : ℕ) (e : ℕ × ℕ) (boxes : List Text) (g : Globals)
    → directory_rva img opt i ≡ some e.0
    → directory_size img opt i ≡ some e.1
    → length boxes ≡ 32
    → i < 16
    → fill_entry img opt i boxes g ≡ some (after_entry i e boxes, g)
unfolding fill_entry set_box
fill_entry_lem img opt i e boxes g r s l h =
    ground (arith, length-modify_at i (λ _. format_hex_padded 8 e.0) boxes)

written :
    (i : ℕ) (e : ℕ × ℕ) (boxes : List Text)
    → length boxes ≡ 32
    → i < 16
    → (get_elem? (after_entry i e boxes) i ≡ some (format_hex_padded 8 e.0))
      × (get_elem? (after_entry i e boxes) (i + 16) ≡ some (format_hex_padded 8 e.1))
written i e boxes l h =
    let rva = λ (t : Text). format_hex_padded 8 e.0 in
    (
      get_elem?-modify_at_ne (i + 16) i _ (modify_at i rva boxes) (omega arith)
          ∙ get_elem?-modify_at_self i (format_hex_padded 8 e.0) boxes (omega arith),
      get_elem?-modify_at_self (i + 16) (format_hex_padded 8 e.1) (modify_at i rva boxes)
          (omega (arith, length-modify_at i rva boxes)),
    )

untouched :
    (i j : ℕ) (e : ℕ × ℕ) (boxes : List Text)
    → i < 16
    → j < i
    → Keeps j boxes (after_entry i e boxes)
untouched i j e boxes h p = (
  get_elem?-modify_at_ne (i + 16) j _ _ (omega arith)
      ∙ get_elem?-modify_at_ne i j _ boxes (omega arith),
  get_elem?-modify_at_ne (i + 16) (j + 16) _ _ (omega arith)
      ∙ get_elem?-modify_at_ne i (j + 16) _ boxes (omega arith),
)

fill_entries_lem :
    (img : Image) (opt i : ℕ) (es : List (ℕ × ℕ)) (boxes : List Text) (g : Globals)
    → HasEntries img opt i es
    → length boxes ≡ 32
    → i + length es ≤ 16
    → (boxes' : List Text) × (fill_entries img opt (length es) i boxes g ≡ some (boxes', g))
      × Shows boxes' i es
      × ((j : ℕ) → j < i → Keeps j boxes boxes')
unfolding fill_entries
fill_entries_lem img opt i [] boxes g has l h = (boxes, refl, tt, λ j p. (refl, refl))
fill_entries_lem img opt i (e ∷ es) boxes g has l h =
    let filled = after_entry i e boxes in
    let inner = modify_at i (λ _. format_hex_padded 8 e.0) boxes in
    let one = fill_entry_lem img opt i e boxes g has.0 has.1 l (omega arith) in
    let size_kept : length filled ≡ 32 =
      length-modify_at (i + 16) (λ _. format_hex_padded 8 e.1) inner
      ∙ length-modify_at i (λ _. format_hex_padded 8 e.0) boxes
      ∙ l in
    let (boxes', runs, shows, keeps) =
      fill_entries_lem img opt (suc i) es filled g has.2 size_kept (omega arith) in
    (
      boxes',
      rw (one, ◌>>=◌) runs,
      (
        (keeps i (omega arith)).0 ∙ (written i e boxes l (omega arith)).0,
        (keeps i (omega arith)).1 ∙ (written i e boxes l (omega arith)).1,
        shows,
      ),
      λ j p.
          let k = keeps j (omega arith) in
          let u = untouched i j e boxes (omega arith) (omega arith) in (k.0 ∙ u.0, k.1 ∙ u.1),
    )

-- The directory list shows the address and the size of each entry of the directory, in the boxes for
-- its number, when the directory has at most the 16 entries that the dialog has boxes for.
pub init_directories_lem :
    (es : List (ℕ × ℕ)) (boxes : List Text) (g : Globals) {img : Image} {nt : ℕ}
    → g.file_buff ≡ some img
    → nt_head img ≡ some nt
    → dword_at img (opt_head_of nt + 92) ≡ some (length es)
    → HasEntries img (opt_head_of nt) 0 es
    → length boxes ≡ 32
    → length es ≤ 16
    → (boxes' : List Text) × (g' : Globals) × (init_directories boxes g ≡ some (boxes', g'))
      × Shows boxes' 0 es
unfolding init_directories load_opt_head
init_directories_lem es boxes g {img} {nt} b n c has l h =
    let g' = record g { opt_head = some (record { into = img; offset = opt_head_of nt }) } in
    let (boxes', runs, shows, keeps) =
      fill_entries_lem img (opt_head_of nt) 0 es boxes g' has l (omega arith) in
    (boxes', g', ground arith, shows)

fill_entry_past :
    (img : Image) (opt i : ℕ) (boxes : List Text) (g : Globals)
    → length boxes ≡ 32
    → 16 ≤ i
    → fill_entry img opt i boxes g ≡ none
unfolding fill_entry set_box
fill_entry_past img opt i boxes g l h = grind (arith, length-modify_at {0})

fill_entry-length :
    (img : Image) (opt i : ℕ) (boxes : List Text) (g : Globals) {boxes' : List Text} {g' : Globals}
    → fill_entry img opt i boxes g ≡ some (boxes', g')
    → length boxes' ≡ length boxes
unfolding fill_entry set_box
fill_entry-length img opt i boxes g h = grind (arith, length-modify_at {0})

fill_entries_past :
    (img : Image) (opt left i : ℕ) (boxes : List Text) (g : Globals)
    → length boxes ≡ 32
    → 16 < i + left
    → i ≤ 16
    → fill_entries img opt left i boxes g ≡ none
unfolding fill_entries
fill_entries_past img opt zero i boxes g l h k = absurd (omega arith)
fill_entries_past img opt (suc left) i boxes g l h k =
    elim (Option-cases (fill_entry img opt i boxes g)) [
      | inl e ↦ rw (e, ◌>>=◌)
      | inr ((boxes', g'), e) ↦
          rw (e, ◌>>=◌)
            (elim (Bool-cases (ltb i 16)) [
              | inl small ↦
                  fill_entries_past img opt left (suc i) boxes' g'
                    (fill_entry-length img opt i boxes g e ∙ l) (omega arith) (ltb→lt i 16 small)
              | inr large ↦ let past = fill_entry_past img opt i boxes g l (ground arith) in cc
            ])
    ]

-- A directory that claims more than 16 entries, as a damaged file may, has no defined outcome: the
-- seventeenth entry's size would go to a box that the dialog does not have.
pub init_directories_overflow :
    (boxes : List Text) (g : Globals) {img : Image} {nt count : ℕ}
    → g.file_buff ≡ some img
    → nt_head img ≡ some nt
    → dword_at img (opt_head_of nt + 92) ≡ some count
    → length boxes ≡ 32
    → 16 < count
    → init_directories boxes g ≡ none
unfolding init_directories load_opt_head
init_directories_overflow boxes g {img} {nt} {count} b n c l h =
    let g' = record g { opt_head = some (record { into = img; offset = opt_head_of nt }) } in
    let past =
      fill_entries_past img (opt_head_of nt) count 0 boxes g' l (omega arith) (omega arith) in
    ground arith
