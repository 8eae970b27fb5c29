-- ===== src/Pe/FileDialog/Sections.antt =====
-- The section list shows the section table, row by row.
use process_manger_alpha.Base.{
  ℕ, suc, ◌+◌, List, [], ◌∷◌, ◌++◌, ◌≡◌, refl, sym, arith, some, length, map, append_assoc,
  append-nil, ◌∙◌, ap, length-append,
}
use process_manger_alpha.Text.{Text, format_hex_padded}
use process_manger_alpha.ListView.{Row, ListView, row_of}
use process_manger_alpha.ListView.Rows.{insert_row, rows-insert_row_last}
use process_manger_alpha.Pe.Image.{Image}
use process_manger_alpha.Pe.Globals.{Globals}
use process_manger_alpha.Pe.Headers.{section_size}
use process_manger_alpha.Pe.Address.Table.{Section, Decodes, HasTable}
use process_manger_alpha.Pe.FileDialog.{section_rows, get_section_head_info}

abbrev pub section_texts : Section → List Text
section_texts s =
    s.name
    ∷ format_hex_padded 8 s.va
    ∷ format_hex_padded 8 s.in_memory
    ∷ format_hex_padded 8 s.raw_start
    ∷ format_hex_padded 8 s.raw_size
    ∷ []

abbrev pub section_row : Section → Row
section_row s = row_of (section_texts s)

module _ (v : ListView) where
  open v use {Ctrl, rows, delete_all_items, rows-delete_all_items}

  rows-section_rows :
      (img : Image) (i sec : ℕ) (table : List Section) (c : Ctrl) (g : Globals)
      → Decodes img sec table
      → i ≡ length (rows c)
      → (c' : Ctrl) × (section_rows v img (length table) i sec c g ≡ some (c', g))
        × (rows c' ≡ rows c ++ map section_row table)
  unfolding section_rows
  rows-section_rows img i sec [] c g d e = (c, refl, sym (append-nil (rows c)))
  rows-section_rows img i sec (s ∷ ss) c g d e =
      let c₁ = insert_row v i (section_texts s) c in
      let shown = rows-insert_row_last v i (section_texts s) c e in
      let (c', runs, done) =
        rows-section_rows img (suc i) (sec + section_size) ss c₁ g d.5
          (omega (arith, ap length shown, length-append (rows c) (section_row s ∷ []))) in
      (
        c',
        ground arith,
        done ∙ rw shown (append_assoc (rows c) (section_row s ∷ []) (map section_row ss)),
      )

  -- Whatever the list held before, it ends up with one row for each section header, in the order of
  -- the table, with the header's name, addresses and sizes; nothing else changes.
  pub get_section_head_info_lem :
      (table : List Section) (c : Ctrl) (g : Globals) {img : Image}
      → HasTable g img table
      → (c' : Ctrl) × (get_section_head_info v c g ≡ some (c', g))
        × (rows c' ≡ map section_row table)
  unfolding get_section_head_info
  get_section_head_info_lem table c g {img} h =
      let cleared = delete_all_items c in
      let (c', runs, done) =
        rows-section_rows img 0 h.first table cleared g h.decodes
          (rw (rows-delete_all_items c) refl) in
      (c', ground arith, done ∙ rw (rows-delete_all_items c))
