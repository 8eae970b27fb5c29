-- ===== src/Pe/Relocations/Blocks.antt =====
-- The list of blocks shows every block of the table; the click on one of them works with the
-- addresses of the last.
use process_manger_alpha.Base.{
  ℕ, zero, suc, ◌+◌, ◌≤◌, ◌==◌, false, List, [], ◌∷◌, ◌++◌, ◌≡◌, sym, ap, ◌∙◌, arith, some, length,
  length-append, append_assoc, append-nil,
}
use process_manger_alpha.Text.{Text}
use process_manger_alpha.ListView.{Row, ListView, row_of}
use process_manger_alpha.ListView.Rows.{insert_row, rows-insert_row_last}
use process_manger_alpha.Pe.Image.{Image, dword_at}
use process_manger_alpha.Pe.Globals.{Globals, ◌>>=◌, need}
use process_manger_alpha.Pe.Headers.{add_dword}
use process_manger_alpha.Pe.Address.{rva_to_foa}
use process_manger_alpha.Pe.Relocations.{RelocGlobals, block_texts, block_rows, block_round}

-- A block: its page's address in memory and in the file, its size, and the
-- name of the section that its page is in.
pub record Block : Type 0 where
  pub rva : ℕ
  pub foa : ℕ
  pub size : ℕ
  pub name : Text

-- The blocks that follow one another from an offset to the block of size 0, and the globals that
-- converting their addresses leads to.
unfoldable pub BlocksAt : Image → ℕ → Globals → List Block → Globals → Type 0
BlocksAt img reloc g [] g' = (dword_at img (reloc + 4) ≡ some 0) × (g ≡ g')
BlocksAt img reloc g (b ∷ bs) g' =
    (mid : Globals) × (dword_at img (reloc + 4) ≡ some b.size)
    × (b.size == 0 ≡ false)
    × (dword_at img reloc ≡ some b.rva)
    × (rva_to_foa b.rva g ≡ some (b.foa, record mid { section_name = b.name }))
    × BlocksAt img (add_dword reloc b.size) (record mid { section_name = b.name }) bs g'

-- What the globals of the dialog remember of a block, and of the blocks one after another.
abbrev pub remember : Image → ℕ → Block → RelocGlobals → RelocGlobals
remember img reloc b s = record {
  base_rva = b.rva;
  real_va = b.foa;
  dp_map = (b.foa, record { into = img; offset = reloc }) ∷ s.dp_map;
}

abbrev pub remember_all : Image → ℕ → List Block → RelocGlobals → RelocGlobals
remember_all img reloc [] s = s
remember_all img reloc (b ∷ bs) s =
    remember_all img (add_dword reloc b.size) bs (remember img reloc b s)

abbrev pub block_rows_of : ℕ → List Block → List Row
block_rows_of i [] = []
block_rows_of i (b ∷ bs) = row_of (block_texts i b.foa b.name b.size) ∷ block_rows_of (suc i) bs

module _ (v : ListView) where
  open v use {Ctrl, rows}

  pub rows-block_rows :
      (fuel : ℕ) (img : Image) (reloc i : ℕ) (bs : List Block) (s : RelocGlobals) (c : Ctrl)
      (g g' : Globals)
      → BlocksAt img reloc g bs g'
      → suc (length bs) ≤ fuel
      → i ≡ length (rows c)
      → (c' : Ctrl) × (block_rows v fuel img reloc i s c g
          ≡ some ((remember_all img reloc bs s, c'), g'))
        × (rows c' ≡ rows c ++ block_rows_of i bs)
  unfolding BlocksAt block_rows block_round
  rows-block_rows zero img reloc i bs s c g g' d f e = absurd (omega arith)
  rows-block_rows (suc fuel) img reloc i [] s c g g' (size, same) f e =
      (c, ground arith, sym (append-nil (rows c)))
  rows-block_rows (suc fuel) img reloc i (b ∷ bs) s c g g' (mid, size, more, rva, foa, d) f e =
      let texts = block_texts i b.foa b.name b.size in
      let c₁ = insert_row v i texts c in
      let shown = rows-insert_row_last v i texts c e in
      let (c', runs, done) =
        rows-block_rows fuel img (add_dword reloc b.size) (suc i) bs (remember img reloc b s) c₁
          (record mid { section_name = b.name }) g' d (omega arith)
          (omega (arith, ap length shown, length-append (rows c) (row_of texts ∷ []))) in
      (
        c',
        rw (size, ◌>>=◌, need, more, rva, foa) runs,
        done ∙ rw shown (append_assoc (rows c) (row_of texts ∷ []) (block_rows_of (suc i) bs)),
      )
