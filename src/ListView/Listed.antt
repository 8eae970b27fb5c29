-- ===== src/ListView/Listed.antt =====
-- The list control as the list of its rows: the interface can be met.
use process_manger_alpha.Base.{
  false, List, [], refl, length, get_elem?, insert_at, modify_at, remove_at,
}
use process_manger_alpha.ListView.{Row, blank, get_cell, write_cell, asked, ListView}

abbrev pub listed : ListView
listed = record {
  Ctrl = List Row;
  rows = λ c. c;
  insert_item = λ i c. insert_at i blank c;
  set_item_text = λ i j s c. modify_at i (write_cell j s) c;
  delete_item = λ i c. remove_at i c;
  delete_all_items = λ c. [];
  get_item_count = λ c. length c;
  get_item_text = λ i j c. asked (λ r. get_cell j r.cells) [] (get_elem? c i);
  is_selected = λ i c. asked (λ r. r.selected) false (get_elem? c i);
  get_check = λ i c. asked (λ r. r.checked) false (get_elem? c i);
  rows-insert_item = λ i c. refl;
  rows-set_item_text = λ i j s c. refl;
  rows-delete_item = λ i c. refl;
  rows-delete_all_items = λ c. refl;
  get_item_count_lem = λ c. refl;
  get_item_text_lem = λ i j c. refl;
  is_selected_lem = λ i c. refl;
  get_check_lem = λ i c. refl;
}
