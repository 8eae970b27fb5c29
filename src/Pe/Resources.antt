-- ===== src/Pe/Resources.antt =====
-- The resource table: ProcessMangerAlpha/CResTableDialog.cpp. The globals `second` and `secondTable`
-- serve as local variables, and are left out. An offset counts from the start of the buffer.
pub mod Dialog
pub mod Shown
pub mod Selection
use process_manger_alpha.Base.{
  ℕ, zero, suc, ◌+◌, ◌*◌, ◌/◌, ◌%◌, ◌^◌, ◌==◌, ◌&&◌, if◌then◌else◌, true, false, Option, some, none,
  List, [], ◌∷◌, drop,
}
use process_manger_alpha.Text.{Text, codes, dword_mod, format_decimal}
use process_manger_alpha.TreeView.{TreeView}
use process_manger_alpha.Pe.Image.{Image, word_at, dword_at}
use process_manger_alpha.Pe.Globals.{Ptr}

infixl 5 ◌>>=◌
abbrev pub ◌>>=◌ : {A B : Type 0} → Option A → (A → Option B) → Option B
none >>= f = none
some a >>= f = f a

-- The names of the kinds of resources.
abbrev class_names : List (ℕ × Text)
class_names =
    (0x1, codes "鼠标指针")
    ∷ (0x2, codes "位图")
    ∷ (0x3, codes "图标")
    ∷ (0x4, codes "菜单")
    ∷ (0x5, codes "对话框")
    ∷ (0x6, codes "字符串列表")
    ∷ (0x7, codes "字体目录")
    ∷ (0x8, codes "资源类型")
    ∷ (0x9, codes "字体")
    ∷ (0xa, codes "快捷键")
    ∷ (0xb, codes "非格式化资源")
    ∷ (0xc, codes "消息列表")
    ∷ (0xd, codes "鼠标指针组")
    ∷ (0xe, codes "图标组")
    ∷ (0x10, codes "版本信息")
    ∷ []

abbrev named : ℕ → List (ℕ × Text) → Text
named id [] = codes "UnDefine"
named id ((k, s) ∷ names) = if id == k then s else named id names

unfoldable pub class_name : ℕ → Text
class_name id = named id class_names

-- A wide string, up to its zero: `nameString->NameString` is taken for such a string, and its length
-- in `nameString->Length` is not looked at.
unfoldable pub wide_string : List ℕ → Option Text
wide_string (lo ∷ hi ∷ rest) = elim (lo == 0 && hi == 0) [
  | true ↦ some []
  | false ↦ elim (wide_string rest) [ none ↦ none | some s ↦ some ((lo + 256 * hi) ∷ s) ]
]
wide_string _ = none

-- NameIsString and NameOffset, Id, DataIsDirectory and OffsetToDirectory: the top bit, and the rest.
abbrev pub top_bit : ℕ → ℕ
top_bit field = field / 2 ^ 31

abbrev pub low_bits : ℕ → ℕ
low_bits field = field % 2 ^ 31

unfoldable pub name_string : Image → ℕ → ℕ → Option Text
unfolding wide_string
name_string img base name = wide_string (drop ((base + low_bits name + 2) % dword_mod) img.bytes)

unfoldable pub class_text : Image → ℕ → ℕ → Option Text
unfolding class_name name_string
class_text img base name =
    if top_bit name == 1 then name_string img base name else some (class_name (name % 65536))

unfoldable pub leaf_text : Image → ℕ → ℕ → Option Text
unfolding name_string
leaf_text img base name =
    if top_bit name == 1 then name_string img base name else some (format_decimal (name % 65536))

-- Where the next layer is, if the entry is a directory.
abbrev pub directory_of : ℕ → ℕ → Option ℕ
directory_of base field = if top_bit field == 1 then some (base + low_bits field) else none

-- `firstMap`, the latest entry of a key first.
abbrev pub FirstMap : Type 0
FirstMap = List (ℕ × Ptr)

abbrev pub remember : Image → ℕ → Option ℕ → FirstMap → FirstMap
remember img item none m = m
remember img item (some o) m = (item, record { into = img; offset = o }) ∷ m

module _ (v : TreeView) where
  open v use {Tree, insert_item}

  -- The loop over the entries of the second layer, at `secondTable`.
  unfoldable pub leaves : ℕ → Image → ℕ → ℕ → ℕ → FirstMap → Tree → Option (FirstMap × Tree)
  leaves zero img base second_table root m t = some (m, t)
  leaves (suc n) img base second_table root m t = do
    name ← dword_at img second_table
    text ← leaf_text img base name
    let (leaf, t') = insert_item text (some root) t
    field ← dword_at img (second_table + 4)
    leaves n img base (second_table + 8) root (remember img leaf (directory_of base field) m) t'

  -- The second layer of an entry, if it has one.
  unfoldable pub second_layer :
      Image → ℕ → Option ℕ → ℕ → FirstMap → Tree → Option (FirstMap × Tree)
  unfolding leaves
  second_layer img base none root m t = some (m, t)
  second_layer img base (some second) root m t = do
    names ← word_at img (second + 12)
    ids ← word_at img (second + 14)
    leaves (names + ids) img base (second + 16) root (remember img root (some second) m) t

  -- The loop over the entries of the first layer, at `firstTable`.
  unfoldable pub classes : ℕ → Image → ℕ → ℕ → FirstMap → Tree → Option (FirstMap × Tree)
  unfolding second_layer
  classes zero img base first_table m t = some (m, t)
  classes (suc n) img base first_table m t = do
    name ← dword_at img first_table
    text ← class_text img base name
    let (root, t') = insert_item text none t
    field ← dword_at img (first_table + 4)
    r ← second_layer img base (directory_of base field) root m t'
    classes n img base (first_table + 8) r.0 r.1
