-- ===== src/Pe/Resources/Dialog.antt =====
-- The handlers of the dialog.
use process_manger_alpha.Base.{ℕ, ◌+◌, some, none, ◌++◌}
use process_manger_alpha.Text.{Text, codes, lower, pad, format_hex, format_hex_padded}
use process_manger_alpha.TreeView.{TreeView}
use process_manger_alpha.Pe.Image.{word_at, dword_at}
use process_manger_alpha.Pe.Globals.{Ptr, Action, pure, ◌>>=◌, need, buffer}
use process_manger_alpha.Pe.Address.{rva_to_foa}
use process_manger_alpha.Pe.Tables.{table_foa}
use process_manger_alpha.Pe.Relocations.{lookup}
use process_manger_alpha.Pe.Resources.{FirstMap, classes}

-- The file's globals, with `resourceBase` as the place it points to, and the texts of the boxes.
pub record Resources : Type 0 where
  pub first_map : FirstMap
  pub resource_base : Ptr
  pub class_first : Text
  pub id_first : Text
  pub class_sec : Text
  pub id_sec : Text
  pub rva : Text
  pub foa : Text
  pub size : Text

-- getDataEntryInfo: the third layer of the node is taken to have one entry, of data.
unfoldable pub get_data_entry_info : ℕ → Resources → Action Resources
get_data_entry_info node s = do
  third ← need (lookup node s.first_map)
  offset_to_data ← need (dword_at third.into (third.offset + 20))
  let base = s.resource_base
  data_rva ← need (dword_at base.into (base.offset + offset_to_data))
  data_foa ← rva_to_foa data_rva
  data_size ← need (dword_at base.into (base.offset + offset_to_data + 4))
  pure (record s {
    rva = format_hex_padded 8 data_rva;
    foa = format_hex_padded 8 data_foa;
    size = format_hex_padded 8 data_size;
  })

-- The counts of a directory, as both branches of the selection handler show them. A node that is not
-- in the map has a null pointer.
unfoldable pub show_counts : ℕ → Resources → Action Resources
show_counts node s = do
  table ← need (lookup node s.first_map)
  names ← need (word_at table.into (table.offset + 12))
  ids ← need (word_at table.into (table.offset + 14))
  pure (record s {
    class_sec = codes " " ++ format_hex_padded 4 names;
    id_sec = format_hex_padded 4 ids;
  })

module _ (v : TreeView) where
  open v use {Tree, get_parent_item}

  -- OnSelchangedTree1, with the node that is selected.
  unfoldable pub on_selchanged : ℕ → Tree → Resources → Action Resources
  unfolding get_data_entry_info show_counts
  on_selchanged node t s = elim (get_parent_item node t) [
    | none ↦ do
      shown ← show_counts node s
      pure (record shown { rva = codes ""; foa = codes ""; size = codes "" })
    | some parent ↦ do shown ← show_counts parent s; get_data_entry_info node shown
  ]

  -- getResTableUnfo
  unfoldable pub get_res_table_info : Resources → Tree → Action (Resources × Tree)
  get_res_table_info s t = do
    table ← table_foa 2
    img ← buffer
    names ← need (word_at img (table + 12))
    ids ← need (word_at img (table + 14))
    r ← need (classes v (names + ids) img table (table + 16) s.first_map t)
    pure (
      record s {
        first_map = r.0;
        resource_base = record { into = img; offset = table };
        class_first = pad b'0' 4 (format_hex lower names);
        id_first = format_hex_padded 4 ids;
      },
      r.1,
    )
