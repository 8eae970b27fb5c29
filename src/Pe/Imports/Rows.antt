-- ===== src/Pe/Imports/Rows.antt =====
-- The two lists of the import table show every descriptor and, of the module that is clicked, every
-- thunk.
use process_manger_alpha.Base.{
  ℕ, zero, suc, ◌+◌, ◌≤◌, ◌==◌, false, List, [], ◌∷◌, ◌++◌, ◌≡◌, refl, sym, ap, ◌∙◌, arith, some,
  length, map, get_elem?, length-append, append_assoc, append-nil,
}
use process_manger_alpha.ListView.{Row, ListView, row_of}
use process_manger_alpha.ListView.Rows.{insert_row, rows-insert_row_last}
use process_manger_alpha.Text.{Text, format_hex_padded, long_max, tcstol}
use process_manger_alpha.Text.RoundTrip.{tcstol-format_hex_padded}
use process_manger_alpha.Pe.Image.{Image, dword_at, string_at}
use process_manger_alpha.Pe.Globals.{Globals, ◌>>=◌, need}
use process_manger_alpha.Pe.Headers.{add_dword}
use process_manger_alpha.Pe.Address.{rva_to_foa}
use process_manger_alpha.Pe.Tables.{table_foa}
use process_manger_alpha.Pe.Imports.{
  module_round, func_round, module_rows, get_import_table_info, thunk_texts, func_rows,
  get_func_info, show_functions,
}

-- An import descriptor, with the name that its third field leads to.
pub record Descriptor : Type 0 where
  pub name : Text
  pub int_rva : ℕ
  pub stamp : ℕ
  pub chain : ℕ
  pub name_rva : ℕ
  pub iat_rva : ℕ

-- The descriptors that follow one another from an offset to one whose name is 0, and the globals
-- that the conversions of their names' addresses lead to.
unfoldable pub DescriptorsAt : Image → ℕ → Globals → List Descriptor → Globals → Type 0
DescriptorsAt img desc g [] g' = (dword_at img (desc + 12) ≡ some 0) × (g ≡ g')
DescriptorsAt img desc g (d ∷ ds) g' =
    (foa : ℕ) × (mid : Globals) × (dword_at img (desc + 12) ≡ some d.name_rva)
    × (d.name_rva == 0 ≡ false)
    × (rva_to_foa d.name_rva g ≡ some (foa, mid))
    × (string_at img foa ≡ some d.name)
    × (dword_at img desc ≡ some d.int_rva)
    × (dword_at img (desc + 4) ≡ some d.stamp)
    × (dword_at img (desc + 8) ≡ some d.chain)
    × (dword_at img (desc + 16) ≡ some d.iat_rva)
    × DescriptorsAt img (desc + 20) mid ds g'

abbrev pub descriptor_texts : Descriptor → List Text
descriptor_texts d =
    d.name
    ∷ format_hex_padded 8 d.int_rva
    ∷ format_hex_padded 8 d.stamp
    ∷ format_hex_padded 8 d.chain
    ∷ format_hex_padded 8 d.name_rva
    ∷ format_hex_padded 8 d.iat_rva
    ∷ []

abbrev pub descriptor_row : Descriptor → Row
descriptor_row d = row_of (descriptor_texts d)

-- A thunk, with the two texts that describe what it imports.
pub record Thunk : Type 0 where
  pub value : ℕ
  pub named : List Text

-- The thunks that follow one another to one that is 0.
unfoldable pub ThunksAt : Image → ℕ → ℕ → Globals → List Thunk → Globals → Type 0
ThunksAt img rva foa g [] g' = (dword_at img foa ≡ some 0) × (g ≡ g')
ThunksAt img rva foa g (t ∷ ts) g' =
    (mid : Globals) × (dword_at img foa ≡ some t.value)
    × (t.value == 0 ≡ false)
    × (thunk_texts img t.value g ≡ some (t.named, mid))
    × ThunksAt img (add_dword rva 4) (add_dword foa 4) mid ts g'

-- The rows of the thunks that begin at these two addresses.
abbrev pub thunk_rows_of : ℕ → ℕ → List Thunk → List Row
thunk_rows_of rva foa [] = []
thunk_rows_of rva foa (t ∷ ts) =
    row_of
      (format_hex_padded 8 rva ∷ format_hex_padded 8 foa ∷ format_hex_padded 8 t.value ∷ t.named)
    ∷ thunk_rows_of (add_dword rva 4) (add_dword foa 4) ts

get_elem?-map {ℓ κ} :
    {A : Type ℓ} {B : Type κ} (f : A → B) (i : ℕ) (xs : List A) {x : A}
    → get_elem? xs i ≡ some x
    → get_elem? (map f xs) i ≡ some (f x)
get_elem?-map f i [] e = cc
get_elem?-map f zero (x ∷ xs) e = cc
get_elem?-map f (suc i) (x ∷ xs) e = get_elem?-map f i xs e

module _ (v : ListView) where
  open v use {Ctrl, rows, delete_all_items, get_item_text, rows-delete_all_items, get_item_text_lem}

  rows-module_rows :
      (fuel : ℕ) (img : Image) (desc i : ℕ) (ds : List Descriptor) (c : Ctrl) (g g' : Globals)
      → DescriptorsAt img desc g ds g'
      → suc (length ds) ≤ fuel
      → i ≡ length (rows c)
      → (c' : Ctrl) × (module_rows v fuel img desc i c g ≡ some (c', g'))
        × (rows c' ≡ rows c ++ map descriptor_row ds)
  unfolding DescriptorsAt module_rows module_round
  rows-module_rows zero img desc i ds c g g' a f e = absurd (omega arith)
  rows-module_rows (suc fuel) img desc i [] c g g' (last, same) f e =
      (c, ground arith, sym (append-nil (rows c)))
  rows-module_rows (suc fuel) img desc i (d ∷ ds) c g g'
        (foa, mid, named, more, moved, name, ints, stamp, chain, iat, a) f e =
      let c₁ = insert_row v i (descriptor_texts d) c in
      let shown = rows-insert_row_last v i (descriptor_texts d) c e in
      let (c', runs, done) =
        rows-module_rows fuel img (desc + 20) (suc i) ds c₁ mid g' a (omega arith)
          (omega (arith, ap length shown, length-append (rows c) (descriptor_row d ∷ []))) in
      (
        c',
        rw (named, ◌>>=◌, need, more, moved, name, ints, stamp, chain, iat) runs,
        done ∙ rw shown (append_assoc (rows c) (descriptor_row d ∷ []) (map descriptor_row ds)),
      )

  rows-func_rows :
      (fuel : ℕ) (img : Image) (rva foa i : ℕ) (ts : List Thunk) (c : Ctrl) (g g' : Globals)
      → ThunksAt img rva foa g ts g'
      → suc (length ts) ≤ fuel
      → i ≡ length (rows c)
      → (c' : Ctrl) × (func_rows v fuel img rva foa i c g ≡ some (c', g'))
        × (rows c' ≡ rows c ++ thunk_rows_of rva foa ts)
  unfolding ThunksAt func_rows func_round
  rows-func_rows zero img rva foa i ts c g g' a f e = absurd (omega arith)
  rows-func_rows (suc fuel) img rva foa i [] c g g' (last, same) f e =
      (c, ground arith, sym (append-nil (rows c)))
  rows-func_rows (suc fuel) img rva foa i (t ∷ ts) c g g' (mid, value, more, named, a) f e =
      let texts =
        format_hex_padded 8 rva ∷ format_hex_padded 8 foa ∷ format_hex_padded 8 t.value ∷ t.named in
      let c₁ = insert_row v i texts c in
      let shown = rows-insert_row_last v i texts c e in
      let (c', runs, done) =
        rows-func_rows fuel img (add_dword rva 4) (add_dword foa 4) (suc i) ts c₁ mid g' a
          (omega arith)
          (omega (arith, ap length shown, length-append (rows c) (row_of texts ∷ []))) in
      (
        c',
        rw (value, ◌>>=◌, need, more, named) runs,
        done
            ∙ rw shown (
                append_assoc (rows c) (row_of texts ∷ [])
                  (thunk_rows_of (add_dword rva 4) (add_dword foa 4) ts)),
      )

  -- Into an empty list, `getImportTableInfo` puts one row for each descriptor of the import table, in
  -- order, when the fuel is more than their number.
  pub get_import_table_info_lem :
      (fuel : ℕ) (ds : List Descriptor) (c : Ctrl) (g g₁ g' : Globals) {img : Image} {foa : ℕ}
      → table_foa 1 g ≡ some (foa, g₁)
      → g₁.file_buff ≡ some img
      → DescriptorsAt img foa g₁ ds g'
      → suc (length ds) ≤ fuel
      → rows c ≡ []
      → (c' : Ctrl) × (get_import_table_info v fuel c g ≡ some (c', g'))
        × (rows c' ≡ map descriptor_row ds)
  unfolding get_import_table_info
  get_import_table_info_lem fuel ds c g g₁ g' {img} {foa} table loaded a f empty =
      let (c', runs, done) = rows-module_rows fuel img foa 0 ds c g₁ g' a f (rw empty refl) in
      (c', ground (arith, runs), done ∙ rw empty refl)

  -- A click on the row of a module whose thunks are below 2 ^ 31 shows these thunks: whatever the
  -- list of functions held, it ends up with one row for each thunk, in order, when the fuel is more
  -- than their number. The address is read back from the text of the row.
  pub show_functions_lem :
      (fuel row : ℕ) (ds : List Descriptor) (ts : List Thunk) (modules funcs : Ctrl)
      (g g₁ g' : Globals) {d : Descriptor} {img : Image} {foa : ℕ}
      → rows modules ≡ map descriptor_row ds
      → get_elem? ds row ≡ some d
      → d.iat_rva ≤ long_max
      → rva_to_foa d.iat_rva g ≡ some (foa, g₁)
      → g₁.file_buff ≡ some img
      → ThunksAt img d.iat_rva foa g₁ ts g'
      → suc (length ts) ≤ fuel
      → (c' : Ctrl) × (show_functions v fuel row modules funcs g ≡ some (c', g'))
        × (rows c' ≡ thunk_rows_of d.iat_rva foa ts)
  unfolding show_functions get_func_info
  show_functions_lem fuel row ds ts modules funcs g g₁ g' {d} {img} {foa} shown at_row small moved
        loaded a f =
      let cleared = delete_all_items funcs in
      let (c', runs, done) =
        rows-func_rows fuel img d.iat_rva foa 0 ts cleared g₁ g' a f
          (rw (rows-delete_all_items funcs) refl) in
      let text : get_item_text row 5 modules ≡ format_hex_padded 8 d.iat_rva =
        get_item_text_lem row 5 modules
        ∙ rw (shown, get_elem?-map descriptor_row row ds at_row) refl in
      let read : tcstol 16 (get_item_text row 5 modules) ≡ d.iat_rva =
        ap (tcstol 16) text ∙ omega (arith, tcstol-format_hex_padded 8 d.iat_rva (omega arith)) in
      (c', rw read (ground (arith, runs)), done ∙ rw (rows-delete_all_items funcs) refl)
