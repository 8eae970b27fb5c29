-- ===== src/Pe/Directories/Exchange.antt =====
-- What UpdateData(TRUE) takes from the boxes of the directory list: the table of DoDataExchange of
-- ProcessMangerAlpha/CDirListDialog.cpp, which OnInitDialog does not go by when it fills the boxes.
use process_manger_alpha.Base.{
  ℕ, zero, suc, ◌+◌, ◌-◌, ◌≤◌, ◌≡◌, refl, ap, ◌∙◌, arith, some, List, [], ◌∷◌, length, get_elem?,
}
use process_manger_alpha.Text.{Text, format_hex_padded}
use process_manger_alpha.Pe.Image.{Image, dword_at}
use process_manger_alpha.Pe.Globals.{Globals}
use process_manger_alpha.Pe.Headers.{nt_head, opt_head_of}
use process_manger_alpha.Pe.Directories.{box_text, init_directories}
use process_manger_alpha.Pe.Directories.Boxes.{HasEntries, Shows, init_directories_lem}

-- The directories that the members are named for: strExportRVA and strExportSize, and so on.
pub data Directory : Type 0 where
  export_dir import_dir resource_dir exception_dir security_dir reloc_dir debug_dir : Directory
  copyright_dir globalptr_dir tls_dir load_config_dir bound_import_dir iat_dir : Directory
  delay_import_dir com_dir bl_dir : Directory

-- The control IDC_EDIT1 to IDC_EDIT32 of each member.
abbrev pub rva_edit : Directory → ℕ
rva_edit export_dir = 1
rva_edit import_dir = 2
rva_edit resource_dir = 3
rva_edit exception_dir = 4
rva_edit security_dir = 5
rva_edit reloc_dir = 6
rva_edit debug_dir = 7
rva_edit copyright_dir = 8
rva_edit globalptr_dir = 9
rva_edit tls_dir = 10
rva_edit load_config_dir = 11
rva_edit bound_import_dir = 12
rva_edit iat_dir = 13
rva_edit delay_import_dir = 14
rva_edit com_dir = 15
rva_edit bl_dir = 16

abbrev pub size_edit : Directory → ℕ
size_edit export_dir = 17
size_edit import_dir = 18
size_edit resource_dir = 19
size_edit exception_dir = 20
size_edit security_dir = 21
size_edit reloc_dir = 22
size_edit debug_dir = 23
size_edit copyright_dir = 24
size_edit globalptr_dir = 25
size_edit tls_dir = 26
size_edit load_config_dir = 27
size_edit bound_import_dir = 28
size_edit iat_dir = 29
size_edit delay_import_dir = 30
size_edit com_dir = 31
size_edit bl_dir = 32

pub record Members : Type 0 where
  pub rva : Text
  pub size : Text

-- DoDataExchange, from the boxes to the members of a directory.
unfoldable pub do_data_exchange : List Text → Directory → Members
do_data_exchange boxes d = record {
  rva = box_text (rva_edit d - 1) boxes;
  size = box_text (size_edit d - 1) boxes;
}

-- The place of a directory in the file: IMAGE_DIRECTORY_ENTRY_EXPORT is 0, and so on.
abbrev pub directory_entry : Directory → ℕ
directory_entry export_dir = 0
directory_entry import_dir = 1
directory_entry resource_dir = 2
directory_entry exception_dir = 3
directory_entry security_dir = 4
directory_entry reloc_dir = 5
directory_entry debug_dir = 6
directory_entry copyright_dir = 7
directory_entry globalptr_dir = 8
directory_entry tls_dir = 9
directory_entry load_config_dir = 10
directory_entry bound_import_dir = 11
directory_entry iat_dir = 12
directory_entry delay_import_dir = 13
directory_entry com_dir = 14
directory_entry bl_dir = 15

rva_edit-directory_entry : (d : Directory) → rva_edit d ≡ suc (directory_entry d)
rva_edit-directory_entry export_dir = refl
rva_edit-directory_entry import_dir = refl
rva_edit-directory_entry resource_dir = refl
rva_edit-directory_entry exception_dir = refl
rva_edit-directory_entry security_dir = refl
rva_edit-directory_entry reloc_dir = refl
rva_edit-directory_entry debug_dir = refl
rva_edit-directory_entry copyright_dir = refl
rva_edit-directory_entry globalptr_dir = refl
rva_edit-directory_entry tls_dir = refl
rva_edit-directory_entry load_config_dir = refl
rva_edit-directory_entry bound_import_dir = refl
rva_edit-directory_entry iat_dir = refl
rva_edit-directory_entry delay_import_dir = refl
rva_edit-directory_entry com_dir = refl
rva_edit-directory_entry bl_dir = refl

size_edit-directory_entry : (d : Directory) → size_edit d ≡ 17 + directory_entry d
size_edit-directory_entry export_dir = refl
size_edit-directory_entry import_dir = refl
size_edit-directory_entry resource_dir = refl
size_edit-directory_entry exception_dir = refl
size_edit-directory_entry security_dir = refl
size_edit-directory_entry reloc_dir = refl
size_edit-directory_entry debug_dir = refl
size_edit-directory_entry copyright_dir = refl
size_edit-directory_entry globalptr_dir = refl
size_edit-directory_entry tls_dir = refl
size_edit-directory_entry load_config_dir = refl
size_edit-directory_entry bound_import_dir = refl
size_edit-directory_entry iat_dir = refl
size_edit-directory_entry delay_import_dir = refl
size_edit-directory_entry com_dir = refl
size_edit-directory_entry bl_dir = refl

box_text_lem :
    (i : ℕ) (s : Text) (boxes : List Text) → get_elem? boxes i ≡ some s → box_text i boxes ≡ s
box_text_lem i s boxes e = rw (e, box_text) refl

Shows-get_elem? :
    (boxes : List Text) (i k : ℕ) (es : List (ℕ × ℕ)) (e : ℕ × ℕ)
    → Shows boxes i es
    → get_elem? es k ≡ some e
    → (get_elem? boxes (i + k) ≡ some (format_hex_padded 8 e.0))
      × (get_elem? boxes (i + k + 16) ≡ some (format_hex_padded 8 e.1))
Shows-get_elem? boxes i k [] e shows at = cc
Shows-get_elem? boxes i zero (x ∷ es) e (rva, size, shows) at =
    let same : x ≡ e = cc in let first : i + 0 ≡ i = omega arith in rw (first, ← same) (rva, size)
Shows-get_elem? boxes i (suc k) (x ∷ es) e (rva, size, shows) at =
    let next : i + suc k ≡ suc i + k = omega arith in
    rw next (Shows-get_elem? boxes (suc i) k es e shows at)

-- For a file with at most 16 directory entries, the dialog, once it has been initialised and the data
-- exchanged, holds for each directory that the file has the address and the size of that very
-- directory, with eight digits.
pub do_data_exchange-init_directories :
    (d : Directory) (es : List (ℕ × ℕ)) (e : ℕ × ℕ) (boxes : List Text) (g : Globals) {img : Image}
    {nt : ℕ}
    → get_elem? es (directory_entry d) ≡ some e
    → g.file_buff ≡ some img
    → nt_head img ≡ some nt
    → dword_at img (opt_head_of nt + 92) ≡ some (length es)
    → HasEntries img (opt_head_of nt) 0 es
    → length boxes ≡ 32
    → length es ≤ 16
    → (boxes' : List Text) × (g' : Globals) × (init_directories boxes g ≡ some (boxes', g'))
      × (do_data_exchange boxes' d
          ≡ record { rva = format_hex_padded 8 e.0; size = format_hex_padded 8 e.1 })
unfolding do_data_exchange
do_data_exchange-init_directories d es e boxes g at b n c has l h =
    let (boxes', g', runs, shows) = init_directories_lem es boxes g b n c has l h in
    let (rva, size) = Shows-get_elem? boxes' 0 (directory_entry d) es e shows at in
    let rva_text : box_text (rva_edit d - 1) boxes' ≡ format_hex_padded 8 e.0 =
      box_text_lem (rva_edit d - 1) _ boxes'
        (ap (get_elem? boxes') (omega (arith, rva_edit-directory_entry d)) ∙ rva) in
    let size_text : box_text (size_edit d - 1) boxes' ≡ format_hex_padded 8 e.1 =
      box_text_lem (size_edit d - 1) _ boxes'
        (ap (get_elem? boxes') (omega (arith, size_edit-directory_entry d)) ∙ size) in
    (boxes', g', runs, rw (rva_text, size_text) refl)
