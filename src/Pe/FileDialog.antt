-- ===== src/Pe/FileDialog.antt =====
-- The dialog that opens a file and shows its headers: ProcessMangerAlpha/CPEFileDialog.cpp.
pub mod Sections
pub mod Opening
mod Texts
pub use Texts.{Tm, HeadTexts, no_texts}
use process_manger_alpha.Base.{
  ℕ, zero, suc, ◌+◌, ◌*◌, Bool, true, false, ◌==◌, if◌then◌else◌, Option, some, none, List, [], ◌∷◌,
  ◌++◌, ◌%◌, length, take,
}
use process_manger_alpha.Text.{
  Text, codes, upper, format_hex, format_hex_padded, format_decimal, dword_mod,
}
use process_manger_alpha.ListView.{ListView}
use process_manger_alpha.ListView.Rows.{insert_row}
use process_manger_alpha.Pe.Image.{Image, word_at, dword_at, string_at}
use process_manger_alpha.Pe.Globals.{
  Action, pure, ◌>>=◌, ◌>>◌, need, message_box, buffer, Globals, set_opt_head,
}
use process_manger_alpha.Pe.Headers.{
  nt_head, file_head, opt_head_of, number_of_sections, first_section, section_size, virtual_address,
  virtual_size, size_of_raw_data, pointer_to_raw_data,
}

-- IMAGE_DOS_SIGNATURE, IMAGE_NT_SIGNATURE and IMAGE_FILE_MACHINE_I386
abbrev dos_signature : ℕ
dos_signature = 0x5a4d

abbrev nt_signature : ℕ
nt_signature = 0x4550

abbrev machine_i386 : ℕ
machine_i386 = 0x14c

-- The signature of the NT headers is read only behind a good DOS signature.
unfoldable pub is_pe_file : Action Bool
is_pe_file = do
  img ← buffer
  magic ← need (word_at img 0)
  let nt_ok = (do
    nt ← need (nt_head img)
    signature ← need (dword_at img nt)
    pure (signature == nt_signature))
  if magic == dos_signature then nt_ok else pure false

-- `%d-%d-%d %d:%d:%d`, with eight hours added to the hour alone.
unfoldable pub format_time : Tm → Text
format_time t =
    format_decimal (t.year + 1900)
    ++ b'-' ∷ format_decimal (t.month + 1)
    ++ b'-' ∷ format_decimal t.day
    ++ b' ' ∷ format_decimal (t.hour + 8)
    ++ b':' ∷ format_decimal t.minute
    ++ b':' ∷ format_decimal t.second

-- `gmtime_s` reads a 64-bit `time_t` at the 32-bit time stamp, so the field behind it is read too.
unfoldable pub get_file_head_info : (ℕ → Tm) → HeadTexts → Action HeadTexts
unfolding format_time
get_file_head_info gmtime d = do
  img ← buffer
  nt ← need (nt_head img)
  machine ← need (word_at img (file_head nt))
  stamp ← need (dword_at img (file_head nt + 4))
  beyond ← need (dword_at img (file_head nt + 8))
  opt_size ← need (word_at img (file_head nt + 16))
  characteristics ← need (word_at img (file_head nt + 18))
  pure (record d {
    machine = if machine == machine_i386 then codes "Windows" else codes "UnKnown";
    time = format_time (gmtime (stamp + dword_mod * beyond));
    size_of_opt_head = format_hex upper opt_size;
    characteristic = format_hex upper characteristics;
  })

unfoldable pub get_optional_head_info : HeadTexts → Action HeadTexts
get_optional_head_info d = do
  img ← buffer
  nt ← need (nt_head img)
  let opt = opt_head_of nt
  set_opt_head (some (record { into = img; offset = opt }))
  magic ← need (word_at img opt)
  code ← need (dword_at img (opt + 4))
  init ← need (dword_at img (opt + 8))
  uninit ← need (dword_at img (opt + 12))
  entry ← need (dword_at img (opt + 16))
  base_code ← need (dword_at img (opt + 20))
  base_data ← need (dword_at img (opt + 24))
  image ← need (dword_at img (opt + 28))
  section_align ← need (dword_at img (opt + 32))
  file_align ← need (dword_at img (opt + 36))
  image_size ← need (dword_at img (opt + 56))
  heads_size ← need (dword_at img (opt + 60))
  dll ← need (word_at img (opt + 70))
  directories ← need (dword_at img (opt + 92))
  pure (record d {
    magic = format_hex upper magic;
    size_of_code = format_hex upper code;
    size_of_init_code = format_hex upper init;
    size_of_uninit_code = format_hex upper uninit;
    oep = format_hex upper entry;
    base_of_code = format_hex upper base_code;
    base_of_data = format_hex upper base_data;
    base_image = format_hex upper image;
    section_align = format_hex upper section_align;
    file_align = format_hex upper file_align;
    size_of_image = format_hex upper image_size;
    size_of_heads = format_hex upper heads_size;
    dll_characts = format_hex upper dll;
    number_of_rva_and_sizes = format_hex upper directories;
  })

module _ (v : ListView) where
  open v use {Ctrl, delete_all_items}

  pub record PeFileDialog : Type 0 where
    pub section_list : Ctrl
    pub texts : HeadTexts

  -- The rows of `getSectionHeadInfo` for the headers left, the next one at `sec`.
  unfoldable pub section_rows : Image → ℕ → ℕ → ℕ → Ctrl → Action Ctrl
  section_rows img zero i sec c = pure c
  section_rows img (suc left) i sec c = do
    name ← need (string_at img sec)
    va ← need (virtual_address img sec)
    vs ← need (virtual_size img sec)
    ptr ← need (pointer_to_raw_data img sec)
    size ← need (size_of_raw_data img sec)
    section_rows img left (suc i) (sec + section_size) (
        insert_row v i
          (name
            ∷ format_hex_padded 8 va
            ∷ format_hex_padded 8 vs
            ∷ format_hex_padded 8 ptr
            ∷ format_hex_padded 8 size
            ∷ [])
          c)

  unfoldable pub get_section_head_info : Ctrl → Action Ctrl
  unfolding section_rows
  get_section_head_info c = do
    img ← buffer
    nt ← need (nt_head img)
    count ← need (number_of_sections img nt)
    first ← need (first_section img nt)
    section_rows img count 0 first (delete_all_items c)

  set_buffer : Image → Action (Unit {0})
  set_buffer img g = some (tt, record g { file_buff = some img })

  -- OnBnClickedButton1, from the point at which the chosen file has been read into a new buffer.
  unfoldable pub open_file : (ℕ → Tm) → Image → PeFileDialog → Action PeFileDialog
  unfolding set_buffer is_pe_file get_file_head_info get_optional_head_info get_section_head_info
  open_file gmtime img d = do
    set_buffer img
    good ← is_pe_file
    let shown = (do
      t ← get_file_head_info gmtime d.texts
      t' ← get_optional_head_info t
      c ← get_section_head_info d.section_list
      pure (record { section_list = c; texts = t' }))
    let refused = (do message_box (codes "这不是一个PE文件"); pure d)
    if good then shown else refused

  -- OnBnClickedButton1, for what the chosen file holds, unless it does not open, and for what `new`
  -- answers: where the buffer is, unless it throws. The size is a DWORD, so of a file of 4 GB or more
  -- only the rest is read. With no file the size is 0xFFFFFFFF, and `new` throws.
  unfoldable pub choose_file :
      (ℕ → Tm) → Option (List ℕ) → (ℕ → Option ℕ) → PeFileDialog → Action PeFileDialog
  unfolding open_file
  choose_file gmtime chosen new_char d = do
    content ← need chosen
    let file_size = length content % dword_mod
    base ← need (new_char file_size)
    open_file gmtime (record { base = base; bytes = take file_size content }) d

-- OnBnClickedButton2 and OnBnClickedButton3: the address calculator and the directory list open
-- only once a file has been chosen. The result says whether the dialog opens.
unfoldable pub open_tool : Action Bool
open_tool g = elim g.file_buff [
  | none ↦ (do message_box (codes "先选一个文件再来吧"); pure false) g
  | some img ↦ pure true g
]
