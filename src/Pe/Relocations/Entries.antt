-- ===== src/Pe/Relocations/Entries.antt =====
-- What the click on a block shows.
use process_manger_alpha.Base.{
  ℕ, zero, suc, ◌+◌, ◌*◌, ◌/◌, ◌%◌, ◌==◌, true, false, List, [], ◌∷◌, ◌++◌, ◌≡◌, refl, sym, ap, ◌∙◌,
  arith, some, length, ◌≤◌, length-append, append_assoc, append-nil,
}
use process_manger_alpha.ListView.{Row, ListView, row_of}
use process_manger_alpha.ListView.Rows.{insert_row, rows-insert_row_last}
use process_manger_alpha.Text.{tcstol}
use process_manger_alpha.Pe.Image.{Image, word_at, dword_at}
use process_manger_alpha.Pe.Globals.{Ptr, Globals, ◌>>=◌, need}
use process_manger_alpha.Pe.Headers.{add_dword}
use process_manger_alpha.Pe.Tables.{table_foa}
use process_manger_alpha.Pe.Relocations.{
  RelocGlobals, entry_texts, entry_count, entry_rows, get_reloc_table_info, show_block, lookup,
  get_blocks_info,
}
use process_manger_alpha.Pe.Relocations.Blocks.{
  Block, BlocksAt, remember_all, block_rows_of, rows-block_rows,
}

-- An entry of type 3: its two bytes, and the four bytes that it says to relocate.
pub record Entry : Type 0 where
  pub word : ℕ
  pub value : ℕ

abbrev pub offset_of : Entry → ℕ
offset_of e = e.word % 4096

-- The entries of a block, with the padding of other types behind them; the data is where `realVA`
-- says.
unfoldable pub EntriesAt : Image → Image → ℕ → RelocGlobals → ℕ → ℕ → List Entry → Type 0
EntriesAt img file first s zero i [] = Unit {0}
EntriesAt img file first s (suc left) i [] =
    (w : ℕ) × (word_at img (first + 2 * i) ≡ some w)
    × (w / 4096 == 3 ≡ false)
    × EntriesAt img file first s left (suc i) []
EntriesAt img file first s zero i (e ∷ es) = ⊥
EntriesAt img file first s (suc left) i (e ∷ es) =
    (word_at img (first + 2 * i) ≡ some e.word)
    × (e.word / 4096 == 3 ≡ true)
    × (dword_at file (add_dword s.real_va (offset_of e)) ≡ some e.value)
    × EntriesAt img file first s left (suc i) es

abbrev pub entry_rows_of : RelocGlobals → ℕ → ℕ → List Entry → List Row
entry_rows_of s base i [] = []
entry_rows_of s base i (e ∷ es) =
    row_of (entry_texts s base i (offset_of e) e.value) ∷ entry_rows_of s base (suc i) es

remember_all-last :
    (img : Image) (reloc : ℕ) (bs : List Block) (b : Block) (s : RelocGlobals)
    → ((remember_all img reloc (bs ++ b ∷ []) s).base_rva ≡ b.rva)
      × ((remember_all img reloc (bs ++ b ∷ []) s).real_va ≡ b.foa)
remember_all-last img reloc [] b s = (refl, refl)
remember_all-last img reloc (x ∷ bs) b s = remember_all-last img (add_dword reloc x.size) bs b _

module _ (v : ListView) where
  open v use {Ctrl, rows, delete_all_items, get_item_text, rows-delete_all_items}

  entry_rows-padding :
      (img file : Image) (first : ℕ) (s : RelocGlobals) (left i : ℕ) (c : Ctrl) (g : Globals)
      → EntriesAt img file first s left i []
      → entry_rows v img file first s left i c g ≡ some (c, g)
  unfolding EntriesAt entry_rows
  entry_rows-padding img file first s zero i c g d = refl
  entry_rows-padding img file first s (suc left) i c g (w, word, other, d) =
      rw (word, ◌>>=◌, need, other) (entry_rows-padding img file first s left (suc i) c g d)

  rows-entry_rows :
      (img file : Image) (first : ℕ) (s : RelocGlobals) (left i : ℕ) (es : List Entry) (c : Ctrl)
      (g : Globals)
      → EntriesAt img file first s left i es
      → i ≡ length (rows c)
      → (c' : Ctrl) × (entry_rows v img file first s left i c g ≡ some (c', g))
        × (rows c' ≡ rows c ++ entry_rows_of s file.base i es)
  unfolding EntriesAt entry_rows
  rows-entry_rows img file first s left i [] c g d e =
      (c, entry_rows-padding img file first s left i c g d, sym (append-nil (rows c)))
  rows-entry_rows img file first s zero i (x ∷ es) c g d e = absurd d
  rows-entry_rows img file first s (suc left) i (x ∷ es) c g (word, three, value, d) e =
      let texts = entry_texts s file.base i (offset_of x) x.value in
      let c₁ = insert_row v i texts c in
      let shown = rows-insert_row_last v i texts c e in
      let (c', runs, done) =
        rows-entry_rows img file first s left (suc i) es c₁ g d
          (omega (arith, ap length shown, length-append (rows c) (row_of texts ∷ []))) in
      (
        c',
        rw (word, ◌>>=◌, need, three, value) runs,
        done
            ∙ rw shown
                (append_assoc (rows c) (row_of texts ∷ []) (entry_rows_of s file.base (suc i) es)),
      )

  -- A block that the clicked row leads to, and that has entries of type 3 with padding behind them at
  -- most, is shown in whole, one row for each of those entries, in order. The addresses of the rows
  -- are computed from `baseRVA` and `realVA` as they are at the time, not from the block.
  pub show_block_lem :
      (row : ℕ) (es : List Entry) (s : RelocGlobals) (sections blocks : Ctrl) (g : Globals)
      {file : Image} {p : Ptr} {size : ℕ}
      → lookup (tcstol 16 (get_item_text row 2 sections)) s.dp_map ≡ some p
      → dword_at p.into (p.offset + 4) ≡ some size
      → g.file_buff ≡ some file
      → EntriesAt p.into file (p.offset + 8) s (entry_count size) 0 es
      → (c' : Ctrl) × (show_block v row s sections blocks g ≡ some (c', g))
        × (rows c' ≡ entry_rows_of s file.base 0 es)
  unfolding show_block get_blocks_info
  show_block_lem row es s sections blocks g {file} {p} {size} found sized loaded d =
      let cleared = delete_all_items blocks in
      let (c', runs, done) =
        rows-entry_rows p.into file (p.offset + 8) s (entry_count size) 0 es cleared g d
          (rw (rows-delete_all_items blocks) refl) in
      (c', ground (arith, runs), done ∙ rw (rows-delete_all_items blocks) refl)

  -- Into an empty list, `getRelocTableInfo` puts one row for each block of the table, in order,
  -- when the table has a block and the fuel is more than the number of blocks. What it leaves in
  -- `baseRVA` and `realVA` are the addresses of the last block.
  pub get_reloc_table_info_lem :
      (fuel : ℕ) (bs : List Block) (b : Block) (s : RelocGlobals) (c : Ctrl) (g g₁ g' : Globals)
      {img : Image} {foa : ℕ}
      → table_foa 5 g ≡ some (foa, g₁)
      → g₁.file_buff ≡ some img
      → BlocksAt img foa g₁ (bs ++ b ∷ []) g'
      → suc (length (bs ++ b ∷ [])) ≤ fuel
      → rows c ≡ []
      → (s' : RelocGlobals) × (c' : Ctrl) × (get_reloc_table_info v fuel s c g
          ≡ some ((s', c'), g'))
        × (rows c' ≡ block_rows_of 0 (bs ++ b ∷ []))
        × (s'.base_rva ≡ b.rva)
        × (s'.real_va ≡ b.foa)
  unfolding get_reloc_table_info
  get_reloc_table_info_lem fuel bs b s c g g₁ g' {img} {foa} table loaded d f empty =
      let (c', runs, done) =
        rows-block_rows v fuel img foa 0 (bs ++ b ∷ []) s c g₁ g' d f (rw empty refl) in
      (
        remember_all img foa (bs ++ b ∷ []) s,
        c',
        ground (arith, runs),
        done ∙ rw empty refl,
        (remember_all-last img foa bs b s).0,
        (remember_all-last img foa bs b s).1,
      )
