-- ===== src/Tests/Resources.antt =====
-- The sample file with a resource table: one icon, 7, with one entry of data.
use process_manger_alpha.Base.{ℕ, ◌≡◌, refl, some, none, List, [], ◌∷◌, ◌++◌}
use process_manger_alpha.Text.{codes, format_hex_padded, format_decimal}
use process_manger_alpha.TreeView.{Node}
use process_manger_alpha.TreeView.Noted.{noted}
use process_manger_alpha.Pe.Image.{Image, dword_at, string_at}
use process_manger_alpha.Pe.Globals.{Globals, Ptr}
use process_manger_alpha.Pe.Headers.{nt_head, first_section}
use process_manger_alpha.Pe.Address.{rva_to_foa}
use process_manger_alpha.Pe.Tables.{table_foa, load_opt_head}
use process_manger_alpha.Pe.Resources.{class_text, leaf_text}
use process_manger_alpha.Pe.Resources.Dialog.{Resources, get_res_table_info, on_selchanged}
use process_manger_alpha.Pe.Resources.Shown.{Class, ClassesAt, ClassesShown}
use process_manger_alpha.Pe.Resources.Selection.{
  SameTable, get_res_table_info_lem, on_selchanged_keeps, on_selchanged_null, on_selchanged_leaf,
}
use process_manger_alpha.Tests.Sample.{zeros, w2, w4, head_bytes, section_bytes, text_bytes, loaded}

abbrev resource_opt_bytes : List ℕ
resource_opt_bytes =
    w2 0x10b
    ++ zeros 26
    ++ w4 0x400000
    ++ zeros 60
    ++ w4 16
    ++ zeros 16
    ++ w4 0x2028
    ++ w4 80
    ++ zeros 104

abbrev directory_bytes : ℕ → ℕ → List ℕ
directory_bytes name field = zeros 12 ++ w2 0 ++ w2 1 ++ w4 name ++ w4 field

abbrev resource_bytes : List ℕ
resource_bytes =
    directory_bytes 3 0x80000018
    ++ directory_bytes 7 0x80000030
    ++ directory_bytes 1033 72
    ++ w4 0x2000
    ++ w4 0x10

abbrev icons : Image
icons = record {
  base = 0x400000;
  bytes =
      head_bytes
      ++ resource_opt_bytes
      ++ section_bytes 0x2000
      ++ text_bytes
      ++ zeros 40
      ++ resource_bytes
      ++ zeros 8;
}

abbrev opened : Globals
opened = record {
  file_buff = some icons;
  opt_head = some (record { into = icons; offset = 88 });
  section_name = codes ".data";
  boxes = [];
}

icons_table : table_foa 2 (loaded icons) ≡ some (0x230, opened)
unfolding table_foa load_opt_head rva_to_foa dword_at nt_head first_section string_at
icons_table = refl

abbrev icon_class : Class
icon_class = record {
  text = codes "图标";
  next = some 0x248;
  below = record { text = codes "7"; next = some 0x260 } ∷ [];
}

icons-ClassesAt : ClassesAt icons 0x230 0x240 (icon_class ∷ [])
unfolding ClassesAt dword_at class_text leaf_text format_decimal
icons-ClassesAt = (
  3,
  0x80000018,
  refl,
  refl,
  refl,
  refl,
  (0, 1, refl, refl, refl, (7, 0x80000030, refl, refl, refl, refl, tt)),
  tt,
)

abbrev closed : Resources
closed = record {
  first_map = [];
  resource_base = record { into = icons; offset = 0 };
  class_first = [];
  id_first = [];
  class_sec = [];
  id_sec = [];
  rva = [];
  foa = [];
  size = [];
}

get_res_table_info_lem_example :
    (s' : Resources) × (t' : List Node) × (ns : List Node) × (get_res_table_info noted closed []
        (loaded icons)
      ≡ some ((s', t'), opened))
    × (t' ≡ [] ++ ns)
    × ClassesShown icons s'.first_map (icon_class ∷ []) ns
unfolding dword_at
get_res_table_info_lem_example =
    get_res_table_info_lem noted (icon_class ∷ []) closed [] (loaded icons) opened icons_table refl
      refl refl refl icons-ClassesAt

abbrev here : ℕ → Ptr
here o = record { into = icons; offset = o }

-- The dialog after it has opened, and its tree.
abbrev shown : Resources
shown = record {
  first_map = (2, here 0x260) ∷ (1, here 0x248) ∷ [];
  resource_base = here 0x230;
  class_first = codes "0000";
  id_first = codes "0001";
  class_sec = [];
  id_sec = [];
  rva = [];
  foa = [];
  size = [];
}

abbrev tree : List Node
tree =
    record { item = 1; parent = none; text = codes "图标" }
    ∷ record { item = 2; parent = some 1; text = codes "7" }
    ∷ []

abbrev leaf_shown : Resources
leaf_shown = record shown {
  class_sec = codes " " ++ format_hex_padded 4 0;
  id_sec = format_hex_padded 4 1;
  rva = format_hex_padded 8 0x2000;
  foa = format_hex_padded 8 0x208;
  size = format_hex_padded 8 0x10;
}

on_selchanged_leaf_applied : on_selchanged noted 2 tree shown opened ≡ some (leaf_shown, opened)
unfolding dword_at rva_to_foa nt_head first_section string_at
on_selchanged_leaf_applied =
    on_selchanged_leaf noted 2 1 tree shown opened opened {img = icons} {base = 0x230} {up = 0x248}
      {third = 0x260} refl refl refl refl refl refl refl refl refl refl

on_selchanged_keeps_applied : SameTable shown leaf_shown
on_selchanged_keeps_applied =
    on_selchanged_keeps noted 2 tree shown leaf_shown opened opened on_selchanged_leaf_applied

on_selchanged_null_applied : on_selchanged noted 3 tree shown opened ≡ none
on_selchanged_null_applied = on_selchanged_null noted 3 tree shown opened refl
