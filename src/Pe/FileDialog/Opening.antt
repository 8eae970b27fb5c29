-- ===== src/Pe/FileDialog/Opening.antt =====
-- What choosing a file leaves behind, for a PE file and for another one.
use process_manger_alpha.Base.{
  ℕ, ◌==◌, ◌⊎◌, inl, inr, true, false, some, List, ◌∷◌, ◌≡◌, refl, map, ap, sym, ◌∙◌, [], length,
  take, take-append, append-nil, ◌<◌, ◌%◌, Option, arith,
}
use process_manger_alpha.Text.{codes, dword_mod}
use process_manger_alpha.ListView.{ListView}
use process_manger_alpha.Pe.Image.{Image, word_at, dword_at}
use process_manger_alpha.Pe.Globals.{Globals, ◌>>=◌, need}
use process_manger_alpha.Pe.Headers.{nt_head}
use process_manger_alpha.Pe.Address.Table.{Section, HasTable}
use process_manger_alpha.Pe.FileDialog.{
  Tm, HeadTexts, PeFileDialog, is_pe_file, get_file_head_info, get_optional_head_info, open_file,
  open_tool, choose_file,
}
use process_manger_alpha.Pe.FileDialog.Sections.{section_row, get_section_head_info_lem}

-- A file whose first two bytes, or whose NT headers' first four, are not the signature.
unfoldable pub NotPe : Image → Type 0
NotPe img =
    ((magic : ℕ) × (word_at img 0 ≡ some magic) × (magic == 0x5a4d ≡ false))
    ⊎ ((nt : ℕ) × (signature : ℕ) × (word_at img 0 ≡ some 0x5a4d)
        × (nt_head img ≡ some nt)
        × (dword_at img nt ≡ some signature)
        × (signature == 0x4550 ≡ false))

-- A file with both signatures.
unfoldable pub HasSignatures : Image → Type 0
HasSignatures img =
    (nt : ℕ) × (word_at img 0 ≡ some 0x5a4d)
    × (nt_head img ≡ some nt)
    × (dword_at img nt ≡ some 0x4550)

abbrev with_buffer : Image → Globals → Globals
with_buffer img g = record g { file_buff = some img }

is_pe_file-NotPe :
    (img : Image) (g : Globals)
    → NotPe img
    → is_pe_file (with_buffer img g) ≡ some (false, with_buffer img g)
unfolding NotPe is_pe_file
is_pe_file-NotPe img g (inl (magic, read, other)) = rw (read, ◌>>=◌, need, other) refl
is_pe_file-NotPe img g (inr (nt, signature, magic, at, read, other)) =
    rw (magic, ◌>>=◌, need, at, read, other) refl

is_pe_file-HasSignatures :
    (img : Image) (g : Globals)
    → HasSignatures img
    → is_pe_file (with_buffer img g) ≡ some (true, with_buffer img g)
unfolding HasSignatures is_pe_file
is_pe_file-HasSignatures img g (nt, magic, at, read) = rw (magic, ◌>>=◌, need, at, read) refl

module _ (v : ListView) where
  open v use {rows}

  -- A file without the signatures is refused with a message, and the texts, the section list and
  -- `optHead` stay as they were. But the buffer is replaced already, so the tools open on the refused
  -- file.
  pub open_file_refused :
      (gmtime : ℕ → Tm) (img : Image) (d : PeFileDialog v) (g : Globals)
      → NotPe img
      → let g' = record g { file_buff = some img; boxes = codes "这不是一个PE文件" ∷ g.boxes } in
        (open_file v gmtime img d g ≡ some (d, g')) × (open_tool g' ≡ some (true, g'))
  unfolding open_file open_tool
  open_file_refused gmtime img d g n = (rw (is_pe_file-NotPe img g n, ◌>>=◌) refl, refl)

  -- For a file with the signatures, whose headers can be read, the dialog shows the texts of the two
  -- headers and, whatever the list held, one row for each section header.
  pub open_file_shown :
      (gmtime : ℕ → Tm) (img : Image) (d : PeFileDialog v) (t t' : HeadTexts) (table : List Section)
      (g g₂ : Globals)
      → HasSignatures img
      → get_file_head_info gmtime d.texts (record g { file_buff = some img })
        ≡ some (t, record g { file_buff = some img })
      → get_optional_head_info t (record g { file_buff = some img }) ≡ some (t', g₂)
      → HasTable g₂ img table
      → (d' : PeFileDialog v) × (open_file v gmtime img d g ≡ some (d', g₂))
        × (d'.texts ≡ t')
        × (rows d'.section_list ≡ map section_row table)
  unfolding open_file
  open_file_shown gmtime img d t t' table g g₂ s file optional h =
      let (c, runs, done) = get_section_head_info_lem v table d.section_list g₂ h in
      (
        record { section_list = c; texts = t' },
        rw (is_pe_file-HasSignatures img g s, ◌>>=◌, file, optional, runs) refl,
        refl,
        done,
      )

  -- A chosen file below 4 GB is opened with all its bytes, at the place that `new` gives.
  pub choose_file-open_file :
      (gmtime : ℕ → Tm) (content : List ℕ) (new_char : ℕ → Option ℕ) (base : ℕ) (d : PeFileDialog v)
      (g : Globals)
      → length content < dword_mod
      → new_char (length content) ≡ some base
      → choose_file v gmtime (some content) new_char d g
        ≡ open_file v gmtime (record { base = base; bytes = content }) d g
  unfolding choose_file
  choose_file-open_file gmtime content new_char base d g small room =
      let size : length content % dword_mod ≡ length content = omega arith in
      let all : take (length content) content ≡ content =
        sym (ap (take (length content)) (append-nil content)) ∙ take-append content [] in
      rw (size, room, all) refl
