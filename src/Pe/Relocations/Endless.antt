-- ===== src/Pe/Relocations/Endless.antt =====
-- A relocation table that the loop never gets out of.
use process_manger_alpha.Base.{ℕ, zero, suc, ◌+◌, ◌==◌, ◌≡◌, false, some, none, length}
use process_manger_alpha.ListView.{ListView}
use process_manger_alpha.Pe.Image.{Image, dword_at}
use process_manger_alpha.Pe.Globals.{Action, Globals, pure}
use process_manger_alpha.Pe.Address.{rva_to_foa}
use process_manger_alpha.Pe.Relocations.{RelocGlobals, block_round, block_rows}

-- A block with its page, its size, and where its page is in the file.
unfoldable pub BlockAt : Image → ℕ → ℕ → Globals → Globals → Type 0
BlockAt img reloc size g g' =
    (rva : ℕ) × (foa : ℕ) × (dword_at img (reloc + 4) ≡ some size)
    × (size == 0 ≡ false)
    × (dword_at img reloc ≡ some rva)
    × (rva_to_foa rva g ≡ some (foa, g'))

module _ (v : ListView) where
  open v use {Ctrl, rows}

  -- The first rounds of the loop, this many of them or those up to its end, and what they leave.
  unfoldable pub first_rounds :
      ℕ → Image → ℕ → ℕ → RelocGlobals → Ctrl → Action (RelocGlobals × Ctrl)
  unfolding block_round
  first_rounds zero img reloc i s c = pure (s, c)
  first_rounds (suc n) img reloc i s c = block_round v (first_rounds n img) img reloc i s c

  -- From this block on, `n` rounds are made, each of which puts in a row, and they are not all.
  Goes : ℕ → Image → ℕ → ℕ → RelocGlobals → Ctrl → Globals → Type 0
  Goes n img reloc i s c g =
      (s' : RelocGlobals) × (c' : Ctrl) × (g' : Globals) × (first_rounds n img reloc i s c g
        ≡ some ((s', c'), g'))
      × (length (rows c') ≡ length (rows c) + n)
      × (block_rows v n img reloc i s c g ≡ none)
