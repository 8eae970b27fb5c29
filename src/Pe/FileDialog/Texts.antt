-- ===== src/Pe/FileDialog/Texts.antt =====
-- The texts that the PE dialog shows, and the broken-down time of the C library.
use process_manger_alpha.Base.{ℕ, []}
use process_manger_alpha.Text.{Text}

-- `struct tm`, which `gmtime_s` fills.
pub record Tm : Type 0 where
  pub year : ℕ
  pub month : ℕ
  pub day : ℕ
  pub hour : ℕ
  pub minute : ℕ
  pub second : ℕ

-- The members of CPEFileDialog that are bound to its edit boxes.
pub record HeadTexts : Type 0 where
  pub machine : Text
  pub base_of_code : Text
  pub base_of_data : Text
  pub base_image : Text
  pub section_align : Text
  pub file_align : Text
  pub size_of_image : Text
  pub size_of_heads : Text
  pub dll_characts : Text
  pub number_of_rva_and_sizes : Text
  pub time : Text
  pub size_of_opt_head : Text
  pub characteristic : Text
  pub magic : Text
  pub size_of_code : Text
  pub size_of_init_code : Text
  pub size_of_uninit_code : Text
  pub oep : Text

-- As the constructor leaves them.
abbrev pub no_texts : HeadTexts
no_texts = record {
  machine = [];
  base_of_code = [];
  base_of_data = [];
  base_image = [];
  section_align = [];
  file_align = [];
  size_of_image = [];
  size_of_heads = [];
  dll_characts = [];
  number_of_rva_and_sizes = [];
  time = [];
  size_of_opt_head = [];
  characteristic = [];
  magic = [];
  size_of_code = [];
  size_of_init_code = [];
  size_of_uninit_code = [];
  oep = [];
}
