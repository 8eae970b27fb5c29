-- ===== src/Pe/Resources/Selection.antt =====
-- What the dialog shows when it opens, and when a node is selected.
use process_manger_alpha.Base.{ℕ, ◌+◌, ◌≡◌, some, none, List, ◌++◌, arith, length}
use process_manger_alpha.Text.{codes, lower, pad, format_hex, format_hex_padded}
use process_manger_alpha.TreeView.{TreeView, Node}
use process_manger_alpha.Pe.Image.{Image, word_at, dword_at}
use process_manger_alpha.Pe.Globals.{Globals}
use process_manger_alpha.Pe.Address.{rva_to_foa}
use process_manger_alpha.Pe.Tables.{table_foa}
use process_manger_alpha.Pe.Relocations.{lookup}
use process_manger_alpha.Pe.Resources.Dialog.{
  Resources, get_res_table_info, on_selchanged, show_counts, get_data_entry_info,
}
use process_manger_alpha.Pe.Resources.Shown.{
  Class, ClassesAt, ClassesShown, Reaches, classes-ClassesShown,
}

-- The globals that the selection of a node leaves alone.
abbrev pub SameTable : Resources → Resources → Type 0
SameTable s s' =
    (s'.first_map ≡ s.first_map)
    × (s'.resource_base ≡ s.resource_base)
    × (s'.class_first ≡ s.class_first)
    × (s'.id_first ≡ s.id_first)

module _ (v : TreeView) where
  open v use {Tree, nodes, get_parent_item}

  -- A resource table with a first layer of these classes: when the dialog opens, a node comes for
  -- each class, and under it one for each entry of its second layer, in order, behind the nodes
  -- that are there. `firstMap` then leads from each node whose entry is a directory to where that
  -- directory is.
  pub get_res_table_info_lem :
      (cs : List Class) (s : Resources) (t : Tree) (g g' : Globals) {img : Image}
      {foa names ids : ℕ}
      → table_foa 2 g ≡ some (foa, g')
      → g'.file_buff ≡ some img
      → word_at img (foa + 12) ≡ some names
      → word_at img (foa + 14) ≡ some ids
      → names + ids ≡ length cs
      → ClassesAt img foa (foa + 16) cs
      → (s' : Resources) × (t' : Tree) × (ns : List Node) × (get_res_table_info v s t g
          ≡ some ((s', t'), g'))
        × (nodes t' ≡ nodes t ++ ns)
        × ClassesShown img s'.first_map cs ns
  unfolding get_res_table_info
  get_res_table_info_lem cs s t g g' {img} {foa} {names} {ids} table loaded named numbered count d =
      let (m', t', ns, runs, shown, below, _) =
        classes-ClassesShown v cs img foa (foa + 16) s.first_map t d in
      (
        record s {
          first_map = m';
          resource_base = record { into = img; offset = foa };
          class_first = pad b'0' 4 (format_hex lower names);
          id_first = format_hex_padded 4 ids;
        },
        t',
        ns,
        ground (arith, runs),
        shown,
        below,
      )

  -- Selecting a node changes neither the map nor the base of the table, so it leads to the same
  -- directories for the selections that follow.
  pub on_selchanged_keeps :
      (node : ℕ) (t : Tree) (s s' : Resources) (g g' : Globals)
      → on_selchanged v node t s g ≡ some (s', g')
      → SameTable s s'
  unfolding on_selchanged show_counts get_data_entry_info
  on_selchanged_keeps node t s s' g g' e = ground arith

  -- Selecting a node that `firstMap` has no directory for, such as a class whose entry is data, reads
  -- through a null pointer, whether the node is a root or a leaf.
  pub on_selchanged_null :
      (node : ℕ) (t : Tree) (s : Resources) (g : Globals)
      → lookup node s.first_map ≡ none
      → on_selchanged v node t s g ≡ none
  unfolding on_selchanged show_counts get_data_entry_info
  on_selchanged_null node t s g e = ground arith

  -- Selecting a leaf whose own and whose parent's directory the map leads to: the boxes show the
  -- counts of the parent's directory, and of the first entry of its own the address of the data, the
  -- place in the file that the address is converted to, and the size.
  pub on_selchanged_leaf :
      (node parent : ℕ) (t : Tree) (s : Resources) (g g' : Globals) {img : Image}
      {base up third names ids entry data_rva data_foa data_size : ℕ}
      → get_parent_item node t ≡ some parent
      → s.resource_base ≡ record { into = img; offset = base }
      → Reaches img s.first_map parent (some up)
      → Reaches img s.first_map node (some third)
      → word_at img (up + 12) ≡ some names
      → word_at img (up + 14) ≡ some ids
      → dword_at img (third + 20) ≡ some entry
      → dword_at img (base + entry) ≡ some data_rva
      → dword_at img (base + entry + 4) ≡ some data_size
      → rva_to_foa data_rva g ≡ some (data_foa, g')
      → on_selchanged v node t s g
        ≡ some (
          record s {
            class_sec = codes " " ++ format_hex_padded 4 names;
            id_sec = format_hex_padded 4 ids;
            rva = format_hex_padded 8 data_rva;
            foa = format_hex_padded 8 data_foa;
            size = format_hex_padded 8 data_size;
          },
          g',
        )
  unfolding on_selchanged show_counts get_data_entry_info
  on_selchanged_leaf node parent t s g g' p b up third names ids entry rva size foa = ground arith
