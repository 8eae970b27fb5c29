-- ===== src/Pe/Relocations.antt =====
-- The relocation table: ProcessMangerAlpha/CRelocDialog.cpp. Its loop over the blocks ends at a block
-- of size 0, so it takes fuel. `baseVA` is written and never read, and is left out.
pub mod Blocks
pub mod Entries
pub mod Endless
use process_manger_alpha.Base.{
  ℕ, zero, suc, ◌+◌, ◌*◌, ◌/◌, ◌%◌, ◌==◌, if◌then◌else◌, Option, some, none, List, [], ◌∷◌, ◌++◌,
}
use process_manger_alpha.Text.{
  Text, codes, Case, upper, dword_mod, format_hex, format_hex_padded, format_decimal, tcstol,
}
use process_manger_alpha.ListView.{ListView}
use process_manger_alpha.ListView.Rows.{insert_row}
use process_manger_alpha.Pe.Image.{Image, word_at, dword_at}
use process_manger_alpha.Pe.Globals.{
  Ptr, Action, pure, ◌>>=◌, need, undefined, buffer, get_section_name,
}
use process_manger_alpha.Pe.Headers.{add_dword}
use process_manger_alpha.Pe.Address.{rva_to_foa, sub_dword}
use process_manger_alpha.Pe.Tables.{table_foa}

-- The file's own globals: `baseRVA`, `realVA`, and `DPMap`, with the latest entry of a key first.
pub record RelocGlobals : Type 0 where
  pub base_rva : ℕ
  pub real_va : ℕ
  pub dp_map : List (ℕ × Ptr)

abbrev pub lookup : ℕ → List (ℕ × Ptr) → Option Ptr
lookup key [] = none
lookup key ((k, p) ∷ m) = let rest = lookup key m in if k == key then some p else rest

-- The number of entries of a block of this size; the eight bytes of its head are not checked for.
abbrev pub entry_count : ℕ → ℕ
entry_count size = sub_dword size 8 / 2

-- The texts of a block's row: `foa` is `realVA`, `name` is `sectionName`.
abbrev pub block_texts : ℕ → ℕ → Text → ℕ → List Text
block_texts i foa name size =
    format_decimal (suc i)
    ∷ name
    ∷ format_hex_padded 8 foa
    ∷ (format_hex upper (entry_count size)
        ++ codes "h / "
        ++ format_decimal (entry_count size)
        ++ codes "d")
    ∷ []

-- The texts of the row of an entry with this offset. `base` is where the buffer lies in memory.
abbrev pub entry_texts : RelocGlobals → ℕ → ℕ → ℕ → ℕ → List Text
entry_texts s base i offset value =
    let rva = add_dword s.base_rva offset in
    format_decimal (suc i)
    ∷ format_hex_padded 8 rva
    ∷ format_hex_padded 8 (add_dword s.real_va offset)
    ∷ codes "HIGHLOW(3)"
    ∷ format_hex_padded 8 (add_dword rva base)
    ∷ format_hex_padded 8 value
    ∷ []

module _ (v : ListView) where
  open v use {Ctrl, delete_all_items, get_item_text}

  -- A round of the loop of `getRelocTableInfo`, at the block `reloc`; `rest` is what comes after it.
  unfoldable pub block_round :
      (ℕ → ℕ → RelocGlobals → Ctrl → Action (RelocGlobals × Ctrl))
      → Image
      → ℕ
      → ℕ
      → RelocGlobals
      → Ctrl
      → Action (RelocGlobals × Ctrl)
  block_round rest img reloc i s c = do
    size ← need (dword_at img (reloc + 4))
    let shown = (do
      rva ← need (dword_at img reloc)
      foa ← rva_to_foa rva
      name ← get_section_name
      rest (add_dword reloc size) (suc i)
          (record {
            base_rva = rva;
            real_va = foa;
            dp_map = (foa, record { into = img; offset = reloc }) ∷ s.dp_map;
          })
          (insert_row v i (block_texts i foa name size) c))
    if size == 0 then pure (s, c) else shown

  -- The loop. The fuel bounds the blocks.
  unfoldable pub block_rows : ℕ → Image → ℕ → ℕ → RelocGlobals → Ctrl → Action (RelocGlobals × Ctrl)
  unfolding block_round
  block_rows zero img reloc i s c = undefined
  block_rows (suc fuel) img reloc i s c = block_round (block_rows fuel img) img reloc i s c

  unfoldable pub get_reloc_table_info : ℕ → RelocGlobals → Ctrl → Action (RelocGlobals × Ctrl)
  unfolding block_rows
  get_reloc_table_info fuel s c = do foa ← table_foa 5; img ← buffer; block_rows fuel img foa 0 s c

  -- The loop of `getBlocksInfo`, over the entries left; the entries are in `img`, the data in the
  -- buffer `file`. Only the entries of type 3 are shown, each at its own index.
  unfoldable pub entry_rows : Image → Image → ℕ → RelocGlobals → ℕ → ℕ → Ctrl → Action Ctrl
  entry_rows img file first s zero i c = pure c
  entry_rows img file first s (suc left) i c = do
    entry ← need (word_at img (first + 2 * i))
    let passed = entry_rows img file first s left (suc i) c
    let shown = (do
      value ← need (dword_at file (add_dword s.real_va (entry % 4096)))
      entry_rows img file first s left (suc i)
          (insert_row v i (entry_texts s file.base i (entry % 4096) value) c))
    if entry / 4096 == 3 then shown else passed

  unfoldable pub get_blocks_info : Ptr → RelocGlobals → Ctrl → Action Ctrl
  unfolding entry_rows
  get_blocks_info reloc s c = do
    size ← need (dword_at reloc.into (reloc.offset + 4))
    file ← buffer
    entry_rows reloc.into file (reloc.offset + 8) s (entry_count size) 0 c

  -- OnClickList1, at the row that was clicked: the block is found by the third text of the row. A
  -- block that is not found is a null pointer, which `getBlocksInfo` reads through.
  unfoldable pub show_block : ℕ → RelocGlobals → Ctrl → Ctrl → Action Ctrl
  unfolding get_blocks_info
  show_block row s sections blocks = do
    reloc ← need (lookup (tcstol 16 (get_item_text row 2 sections)) s.dp_map)
    get_blocks_info reloc s (delete_all_items blocks)
