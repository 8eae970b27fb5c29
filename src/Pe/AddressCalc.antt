-- ===== src/Pe/AddressCalc.antt =====
-- The address calculator: ProcessMangerAlpha/CAddCalcDialog.cpp.
pub mod Modes
pub mod Results
pub mod Trip
use process_manger_alpha.Base.{
  ℕ, zero, suc, ◌+◌, Bool, true, false, ◌==◌, if◌then◌else◌, [], ◌∷◌, ◌++◌,
}
use process_manger_alpha.Text.{Text, codes, upper, format_hex, tcstol}
use process_manger_alpha.Pe.Image.{Image, byte_at, dword_at}
use process_manger_alpha.Pe.Globals.{
  Action, pure, ◌>>=◌, need, buffer, current_opt_head, get_section_name,
}
use process_manger_alpha.Pe.Headers.{add_dword}
use process_manger_alpha.Pe.Address.{sub_dword, rva_to_foa, foa_to_rva}

-- The dialog's edit boxes, and `isActive`, which is a global: it outlives the dialog. A text is what
-- its box shows, since `UpdateData` carries the members to the boxes and back.
pub record Calculator : Type 0 where
  pub active : ℕ
  pub va_read_only : Bool
  pub rva_read_only : Bool
  pub foa_read_only : Bool
  pub va_text : Text
  pub rva_text : Text
  pub foa_text : Text
  pub section_text : Text
  pub bytes_text : Text

-- OnInitDialog
unfoldable pub init_dialog : Calculator → Calculator
init_dialog d = record d { va_read_only = true; rva_read_only = false; foa_read_only = true }

-- OnBnClickedButton3: addresses in memory, relative to the image
unfoldable pub choose_rva : Calculator → Calculator
choose_rva d = record d {
  va_read_only = true;
  rva_read_only = false;
  foa_read_only = true;
  active = 2;
}

clear_texts : Calculator → Calculator
clear_texts d = record d {
  va_text = [];
  rva_text = [];
  foa_text = [];
  section_text = [];
  bytes_text = [];
}

-- OnBnClickedButton2
unfoldable pub choose_va : Calculator → Calculator
unfolding clear_texts
choose_va d =
    clear_texts
      (record d { va_read_only = false; rva_read_only = true; foa_read_only = true; active = 1 })

-- OnBnClickedButton4
unfoldable pub choose_foa : Calculator → Calculator
unfolding clear_texts
choose_foa d =
    clear_texts
      (record d { va_read_only = true; rva_read_only = true; foa_read_only = false; active = 3 })

-- optHead->ImageBase, of the file whose headers were last shown
unfoldable pub image_base : Action ℕ
image_base = do p ← current_opt_head; need (dword_at p.into (p.offset + 28))

abbrev pub byte_text : ℕ → Text
byte_text b = if b == 0 then codes "00 " else format_hex upper b ++ codes " "

-- The loop over the bytes at `pByte`, which appends to `strBytes`.
unfoldable pub append_bytes : Image → ℕ → ℕ → Text → Action Text
append_bytes img zero at_offset shown = pure shown
append_bytes img (suc left) at_offset shown = do
  b ← need (byte_at img at_offset)
  append_bytes img left (at_offset + 1) (shown ++ byte_text b)

-- What the three cases of the switch have in common.
unfoldable pub show_place : ℕ → Calculator → Action Calculator
show_place foa d = do
  name ← get_section_name
  img ← buffer
  shown ← append_bytes img 8 foa d.bytes_text
  pure (record d { section_text = name; bytes_text = shown })

unfoldable pub from_va : Calculator → Action Calculator
from_va d = do
  base ← image_base
  let rva = sub_dword (tcstol 16 d.va_text) base
  foa ← rva_to_foa rva
  show_place foa (record d { rva_text = format_hex upper rva; foa_text = format_hex upper foa })

unfoldable pub from_rva : Calculator → Action Calculator
from_rva d = do
  base ← image_base
  let rva = tcstol 16 d.rva_text
  foa ← rva_to_foa rva
  show_place foa (record d {
    va_text = format_hex upper (add_dword rva base);
    foa_text = format_hex upper foa;
  })

unfoldable pub from_foa : Calculator → Action Calculator
from_foa d = do
  let foa = tcstol 16 d.foa_text
  rva ← foa_to_rva foa
  base ← image_base
  show_place foa (record d {
    rva_text = format_hex upper rva;
    va_text = format_hex upper (add_dword rva base);
  })

-- OnBnClickedButton1
unfoldable pub calculate : Calculator → Action Calculator
calculate d =
    if d.active == 1
    then from_va d
    else if d.active == 2
    then from_rva d
    else if d.active == 3
    then from_foa d
    else pure d
