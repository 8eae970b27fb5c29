-- ===== src/Pe/Exports/Named.antt =====
-- The list of exports of a file whose section headers and tables can be read: getExportTableInfo of
-- ProcessMangerAlpha/CExportTableDialog.cpp against a description of the tables.
use process_manger_alpha.Base.{
  ℕ, suc, ◌+◌, ◌*◌, ◌==◌, ◌⊎◌, true, false, inl, inr, Option, none, some, List, [], ◌∷◌, ◌++◌, ◌≡◌,
  refl, sym, ap, ◌∙◌, length, map, keep, if◌then◌else◌, Bool-cases,
}
use process_manger_alpha.Text.{Text, codes, format_hex_padded}
use process_manger_alpha.ListView.{Row, ListView, row_of}
use process_manger_alpha.Pe.Image.{Image, dword_at, string_at}
use process_manger_alpha.Pe.Globals.{Globals, ◌>>=◌, need}
use process_manger_alpha.Pe.Headers.{add_dword}
use process_manger_alpha.Pe.Address.{rva_to_foa}
use process_manger_alpha.Pe.Address.Table.{
  Section, HasTable, inside, locate_rva, foa_in, rva_to_foa-locate_rva,
}
use process_manger_alpha.Pe.Exports.{
  ExportTables, export_name, export_texts, find_ordinal, export_rows,
}
use process_manger_alpha.Pe.Exports.Rows.{
  OrdinalsAt, first_place, find_ordinal-first_place, Function, is_used, FunctionsAt,
  rows-export_rows,
}

-- A function of the table: its address, the place of that in the file, and its name.
pub record Export : Type 0 where
  pub entry : ℕ
  pub foa : ℕ
  pub name : Text

-- The address lies in a section, and this is its place in the file.
abbrev pub Moved : List Section → ℕ → ℕ → Type 0
Moved table rva foa = (s : Section) × (locate_rva rva table ≡ inside s) × (foa ≡ foa_in rva s)

-- The name that stands at a place of the name table, and `--` for a function without a place in it.
abbrev pub NameAt : Image → ExportTables → List Section → Option ℕ → Text → Type 0
NameAt img t table none name = name ≡ codes "--"
NameAt img t table (some i) name =
    (rva : ℕ) × (foa : ℕ) × (dword_at img (t.name_table + 4 * i) ≡ some rva)
    × Moved table rva foa
    × (string_at img foa ≡ some name)

-- The functions of the table from an index on, with these words in the ordinal table: each is unused,
-- or its address and its name can be found.
abbrev pub ExportsAt : Image → ExportTables → List Section → List ℕ → ℕ → List Export → Type 0
ExportsAt img t table os index [] = Unit
ExportsAt img t table os index (e ∷ es) =
    (dword_at img (t.func_table + 4 * index) ≡ some e.entry)
    × ((e.entry == 0 ≡ true)
        ⊎ ((e.entry == 0 ≡ false)
            × Moved table e.entry e.foa
            × NameAt img t table (first_place index 0 os) e.name))
    × ExportsAt img t table os (suc index) es

abbrev pub texts_of : ℕ → ℕ → Export → List Text
texts_of base index e =
    format_hex_padded 4 (add_dword index base)
    ∷ format_hex_padded 8 e.entry
    ∷ format_hex_padded 8 e.foa
    ∷ e.name
    ∷ []

-- A row for each function that is used, with its ordinal.
abbrev pub rows_of : ℕ → ℕ → List Export → List Row
rows_of base index [] = []
rows_of base index (e ∷ es) =
    let rest = rows_of base (suc index) es in
    if e.entry == 0 then rest else row_of (texts_of base index e) ∷ rest

abbrev functions : ℕ → ℕ → List Export → List Function
functions base index [] = []
functions base index (e ∷ es) =
    record { entry = e.entry; texts = texts_of base index e } ∷ functions base (suc index) es

abbrev function_row : Function → Row
function_row f = row_of f.texts

rows_of-functions :
    (base index : ℕ) (es : List Export)
    → map function_row (keep is_used (functions base index es)) ≡ rows_of base index es
rows_of-functions base index [] = refl
rows_of-functions base index (e ∷ es) = elim (Bool-cases (e.entry == 0)) [
  | inl unused ↦ rw unused (rows_of-functions base (suc index) es)
  | inr used ↦
      rw used (ap (◌∷◌ (row_of (texts_of base index e))) (rows_of-functions base (suc index) es))
]

length-functions :
    (base index : ℕ) (es : List Export) → length (functions base index es) ≡ length es
length-functions base index [] = refl
length-functions base index (e ∷ es) = ap suc (length-functions base (suc index) es)

HasTable-section_name :
    (name : Text) (g : Globals) (img : Image) (table : List Section)
    → HasTable g img table
    → HasTable (record g { section_name = name }) img table
HasTable-section_name name g img table h = record {
  nt = h.nt;
  first = h.first;
  in_buffer = h.in_buffer;
  nt_is = h.nt_is;
  count_is = h.count_is;
  first_is = h.first_is;
  decodes = h.decodes;
}

pub rva_to_foa-Moved :
    (img : Image) (table : List Section) (rva foa : ℕ) (g : Globals)
    → HasTable g img table
    → Moved table rva foa
    → (g' : Globals) × (rva_to_foa rva g ≡ some (foa, g')) × HasTable g' img table
rva_to_foa-Moved img table rva foa g h (s, found, place) = (
  record g { section_name = s.name },
  rva_to_foa-locate_rva rva table g h ∙ rw (found, place) refl,
  HasTable-section_name s.name g img table h,
)

export_name-NameAt :
    (img : Image) (t : ExportTables) (table : List Section) (place : Option ℕ) (name : Text)
    (g : Globals)
    → HasTable g img table
    → NameAt img t table place name
    → (g' : Globals) × (export_name img t place g ≡ some (name, g')) × HasTable g' img table
unfolding export_name
export_name-NameAt img t table none name g h e = (g, ap (λ n. some (n, g)) (sym e), h)
export_name-NameAt img t table (some i) name g h (rva, foa, word, moved, text) =
    let (g', there, h') = rva_to_foa-Moved img table rva foa g h moved in
    (g', rw (word, ◌>>=◌, need, there, text) refl, h')

module _ (img : Image) (t : ExportTables) (table : List Section) (os : List ℕ)
    (ordinals : OrdinalsAt img t 0 os) (count : length os ≡ t.name_count) where
  export_texts_lem :
      (index : ℕ) (e : Export) (g : Globals)
      → HasTable g img table
      → Moved table e.entry e.foa
      → NameAt img t table (first_place index 0 os) e.name
      → (g' : Globals) × (export_texts img t index e.entry g ≡ some (texts_of t.base index e, g'))
        × HasTable g' img table
  unfolding export_texts
  export_texts_lem index e g h moved named =
      let place : find_ordinal img t index t.name_count 0 g ≡ some (first_place index 0 os, g) =
        rw count at (find_ordinal-first_place img t index 0 os g ordinals) in
      let (g₁, name, h₁) =
        export_name-NameAt img t table (first_place index 0 os) e.name g h named in
      let (g₂, there, h₂) = rva_to_foa-Moved img table e.entry e.foa g₁ h₁ moved in
      (g₂, rw (place, ◌>>=◌, name, there) refl, h₂)

  FunctionsAt-ExportsAt :
      (index : ℕ) (es : List Export) (g : Globals)
      → HasTable g img table
      → ExportsAt img t table os index es
      → (g' : Globals) × FunctionsAt img t index g (functions t.base index es) g'
  unfolding FunctionsAt
  FunctionsAt-ExportsAt index [] g h a = (g, refl)
  FunctionsAt-ExportsAt index (e ∷ es) g h (word, inl unused, a) =
      let (g', rest) = FunctionsAt-ExportsAt (suc index) es g h a in
      (g', (g, word, inl (unused, refl), rest))
  FunctionsAt-ExportsAt index (e ∷ es) g h (word, inr (used, moved, named), a) =
      let (g₁, texts, h₁) = export_texts_lem index e g h moved named in
      let (g', rest) = FunctionsAt-ExportsAt (suc index) es g₁ h₁ a in
      (g', (g₁, word, inr (used, texts), rest))

  -- A file whose section headers and ordinal table can be read: for the functions of its export
  -- table, each of them unused or with an address and a name that can be found, the list of exports
  -- gets one row for each that is used, in order, below the rows that it had. The row has the
  -- ordinal, the address, its place in the file, and the first name with the function's index in the
  -- ordinal table, or `--`.
  pub export_rows-ExportsAt :
      (v : ListView) (es : List Export) (c : v.Ctrl) (g : Globals)
      → HasTable g img table
      → ExportsAt img t table os 0 es
      → (c' : v.Ctrl) × (g' : Globals) × (export_rows v img t (length es) 0 (length (v.rows c)) c g
          ≡ some (c', g'))
        × (v.rows c' ≡ v.rows c ++ rows_of t.base 0 es)
  export_rows-ExportsAt v es c g h a =
      let (g', read) = FunctionsAt-ExportsAt 0 es g h a in
      let (c', runs, shown) =
        rows-export_rows v img t 0 (length (v.rows c)) (functions t.base 0 es) c g g' read refl in
      (
        c',
        g',
        rw (length-functions t.base 0 es) at runs,
        shown ∙ ap (λ xs. v.rows c ++ xs) (rows_of-functions t.base 0 es),
      )
