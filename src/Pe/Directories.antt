-- ===== src/Pe/Directories.antt =====
-- The list of the data directory (ProcessMangerAlpha/CDirListDialog.cpp), and the two tables that
-- are a single structure (CTLSTableDialog.cpp, CDelayLoadTableDialog.cpp).
pub mod Boxes
pub mod Buttons
pub mod Exchange
use process_manger_alpha.Base.{
  ℕ, zero, suc, ◌+◌, Bool, true, false, not, if◌then◌else◌, Option, some, none, List, [], ◌∷◌,
  length, get_elem?, list_eq, ltb, modify_at,
}
use process_manger_alpha.Text.{Text, codes, format_hex_padded}
use process_manger_alpha.Pe.Image.{Image, dword_at}
use process_manger_alpha.Pe.Globals.{Action, pure, ◌>>=◌, ◌>>◌, need, buffer, message_box}
use process_manger_alpha.Pe.Headers.{directory_rva, directory_size}
use process_manger_alpha.Pe.Tables.{load_opt_head, table_foa}

-- `GetDlgItem(IDC_EDIT1 + i)->SetWindowText(s)`: the dialog has the boxes IDC_EDIT1 to IDC_EDIT32,
-- and GetDlgItem of any other is NULL.
unfoldable pub set_box : ℕ → Text → List Text → Action (List Text)
set_box i s boxes = if ltb i (length boxes) then pure (modify_at i (λ _. s) boxes) else need none

-- The two texts of a directory entry.
unfoldable pub fill_entry : Image → ℕ → ℕ → List Text → Action (List Text)
fill_entry img opt i boxes = do
  rva ← need (directory_rva img opt i)
  size ← need (directory_size img opt i)
  filled ← set_box i (format_hex_padded 8 rva) boxes
  set_box (i + 16) (format_hex_padded 8 size) filled

-- The loop over the entries left.
unfoldable pub fill_entries : Image → ℕ → ℕ → ℕ → List Text → Action (List Text)
fill_entries img opt zero i boxes = pure boxes
fill_entries img opt (suc left) i boxes = do
  filled ← fill_entry img opt i boxes
  fill_entries img opt left (suc i) filled

-- CDirListDialog::OnInitDialog, on the texts of its 32 boxes
unfoldable pub init_directories : List Text → Action (List Text)
init_directories boxes = do
  opt ← load_opt_head
  img ← buffer
  count ← need (dword_at img (opt + 92))
  fill_entries img opt count 0 boxes

-- The text in a box; there is none where there is no box.
abbrev pub box_text : ℕ → List Text → Text
box_text i boxes = elim (get_elem? boxes i) [ none ↦ [] | some s ↦ s ]

-- OnBnClickedButton1: whether the export table opens. `strExportSize` is the box IDC_EDIT17.
unfoldable pub open_exports : List Text → Action Bool
open_exports boxes =
    if list_eq (box_text 16 boxes) (codes "0")
    then (do message_box (codes "莫得导出表"); pure false)
    else pure true

-- The dialogs that the buttons open.
pub data TableDialog : Type 0 where
  export_table import_table resource_table reloc_table tls_table delay_load_table : TableDialog

-- The buttons IDC_BUTTON1 to 4, 7 and 8 of the message map.
pub data Button : Type 0 where
  button1 button2 button3 button4 button7 button8 : Button

-- OnBnClickedButton1 to 4, 7 and 8: the dialog that opens.
unfoldable pub on_bn_clicked : Button → List Text → Action (Option TableDialog)
on_bn_clicked button1 boxes = do
  opens ← open_exports boxes
  pure (if opens then some export_table else none)
on_bn_clicked button2 boxes = pure (some import_table)
on_bn_clicked button3 boxes = pure (some resource_table)
on_bn_clicked button4 boxes = pure (some reloc_table)
on_bn_clicked button7 boxes = pure (some tls_table)
on_bn_clicked button8 boxes = pure (some delay_load_table)

pub record TlsTable : Type 0 where
  pub begin_va : Text
  pub end_va : Text
  pub index_va : Text
  pub call_back_va : Text
  pub zero_fill : Text
  pub charact : Text

-- CTLSTableDialog::getTLSTableInfo, which reads the directory's entry 9
unfoldable pub get_tls_table_info : Action TlsTable
get_tls_table_info = do
  foa ← table_foa 9
  img ← buffer
  first ← need (dword_at img foa)
  last ← need (dword_at img (foa + 4))
  index ← need (dword_at img (foa + 8))
  call_backs ← need (dword_at img (foa + 12))
  fill ← need (dword_at img (foa + 16))
  charact ← need (dword_at img (foa + 20))
  pure (record {
    begin_va = format_hex_padded 8 first;
    end_va = format_hex_padded 8 last;
    index_va = format_hex_padded 8 index;
    call_back_va = format_hex_padded 8 call_backs;
    zero_fill = format_hex_padded 8 fill;
    charact = format_hex_padded 8 charact;
  })

pub record DelayLoadTable : Type 0 where
  pub dll_name_rva : Text
  pub module_handle_rva : Text
  pub iat_rva : Text
  pub int_rva : Text
  pub biat_rva : Text
  pub uit_rva : Text

-- CDelayLoadTableDialog::getDelayLoadTableInfo, which reads the directory's entry 13
unfoldable pub get_delay_load_table_info : Action DelayLoadTable
get_delay_load_table_info = do
  foa ← table_foa 13
  img ← buffer
  dll ← need (dword_at img (foa + 4))
  handle ← need (dword_at img (foa + 8))
  iat ← need (dword_at img (foa + 12))
  names ← need (dword_at img (foa + 16))
  bound ← need (dword_at img (foa + 20))
  unload ← need (dword_at img (foa + 24))
  pure (record {
    dll_name_rva = format_hex_padded 8 dll;
    module_handle_rva = format_hex_padded 8 handle;
    iat_rva = format_hex_padded 8 iat;
    int_rva = format_hex_padded 8 names;
    biat_rva = format_hex_padded 8 bound;
    uit_rva = format_hex_padded 8 unload;
  })
