-- ===== src/Registry/StartUp.antt =====
-- The programs that start with the system: ProcessMangerAlpha/CStartUpDialog.cpp. The values that
-- RegEnumValue and RegQueryValueEx report of a key, and whether it opens, are a parameter.
use process_manger_alpha.Base.{
  ℕ, Option, none, some, List, [], ◌∷◌, ◌++◌, ◌≡◌, refl, ap, ◌∙◌, arith, length, map, reverse,
  get_elem?, if◌then◌else◌, ◌==◌,
}
use mathlib.Core.List.{reverse_aux}
use process_manger_alpha.Text.{Text, codes}
use process_manger_alpha.ListView.{Row, ListView, row_of}
use process_manger_alpha.ListView.Rows.{insert_row, rows-insert_row}

-- The two keys, HKEY_CURRENT_USER\SOFTWARE\..\Run and HKEY_LOCAL_MACHINE\SOFTWARE\Wow6432Node\..\Run.
pub data Root : Type 0 where
  current_user local_machine : Root

abbrev pub root_text : Root → Text
root_text current_user = codes "HKEY_CURRENT_USER"
root_text local_machine = codes "HKEY_LOCAL_MACHINE"

abbrev pub sub_key : Root → Text
sub_key current_user = codes "SOFTWARE\\Microsoft\\Windows\\CurrentVersion\\Run"
sub_key local_machine = codes "SOFTWARE\\Wow6432Node\\Microsoft\\Windows\\CurrentVersion\\Run"

-- `for (DWORD i = 0; i < 2; i++)`
abbrev pub index_of : Root → ℕ
index_of current_user = 0
index_of local_machine = 1

pub record Value : Type 0 where
  pub name : Text
  pub data_text : Text

-- What the registry reports: the values of a key that opens.
abbrev pub Reported : Type 0
Reported = Root → Option (List Value)

abbrev pub value_texts : Root → Value → List Text
value_texts r e =
    e.name ∷ e.data_text ∷ sub_key r ∷ root_text r ∷ (root_text r ++ b'\\' ∷ sub_key r) ∷ []

abbrev pub value_row : Root → Value → Row
value_row r e = row_of (value_texts r e)

-- What a removal asks of the registry, and what it shows.
pub data Effect : Type 0 where
  delete_value : Root → Text → Effect
  message_box : Effect

module _ (v : ListView) where
  open v use {Ctrl, rows, delete_all_items, get_item_text, rows-delete_all_items, get_item_text_lem}

  -- The inner loop: every value of the key goes in at the row `i`.
  unfoldable pub value_rows : Root → List Value → Ctrl → Ctrl
  value_rows r [] c = c
  value_rows r (e ∷ es) c = value_rows r es (insert_row v (index_of r) (value_texts r e) c)

  -- One round of `getStartUpList`.
  unfoldable pub key_rows : Reported → Root → Ctrl → Ctrl
  unfolding value_rows
  key_rows reported r c = elim (reported r) [ none ↦ c | some es ↦ value_rows r es c ]

  unfoldable pub get_start_up_list : Reported → Ctrl → Ctrl
  unfolding key_rows
  get_start_up_list reported c = key_rows reported local_machine (key_rows reported current_user c)

  -- One round of `doDelete`, with what the registry reports after it.
  unfoldable pub delete_round : Reported → Root → Text → Ctrl → Ctrl × List Effect
  unfolding get_start_up_list
  delete_round after r name c =
      (get_start_up_list after (delete_all_items c), delete_value r name ∷ message_box ∷ [])

  -- doDelete, with what the registry reports after each of its two removals.
  unfoldable pub do_delete : Reported → Reported → Text → Ctrl → Ctrl × List Effect
  unfolding delete_round
  do_delete first second name c =
      let (c', done) = delete_round first current_user name c in
      let (c'', done') = delete_round second local_machine name c' in (c'', done ++ done')

  pub record StartUp : Type 0 where
    pub list : Ctrl
    -- nRow and BootName
    pub row : ℕ
    pub boot_name : Text

  -- OnRclickList1, at the row that was clicked
  unfoldable pub on_rclick : ℕ → StartUp → StartUp
  on_rclick row d = record d { row = row; boot_name = get_item_text row 0 d.list }

  -- OnCommandRangePMenu, with what the registry reports after each removal of doDelete.
  unfoldable pub on_command : Reported → Reported → ℕ → StartUp → StartUp × List Effect
  unfolding do_delete
  on_command first second n_id d =
      if n_id == 32799
      then (let (list, done) = do_delete first second d.boot_name d.list in
          (record d { list = list }, done))
      else (d, [])

  rows-user :
      (es : List Value) (c : Ctrl)
      → rows (value_rows current_user es c) ≡ reverse_aux (map (value_row current_user) es) (rows c)
  unfolding value_rows
  rows-user [] c = refl
  rows-user (e ∷ es) c =
      rows-user es (insert_row v 0 (value_texts current_user e) c)
      ∙ ap (reverse_aux (map (value_row current_user) es))
          (rows-insert_row v 0 (value_texts current_user e) c (omega arith))

  -- Behind a first row, the loop for the second key puts its values in backwards.
  rows-machine :
      (es : List Value) (x : Row) (xs : List Row) (c : Ctrl)
      → rows c ≡ x ∷ xs
      → rows (value_rows local_machine es c) ≡ x ∷ reverse_aux (map (value_row local_machine) es) xs
  unfolding value_rows
  rows-machine [] x xs c h = h
  rows-machine (e ∷ es) x xs c h =
      rows-machine es x (value_row local_machine e ∷ xs)
        (insert_row v 1 (value_texts local_machine e) c)
        (rows-insert_row v 1 (value_texts local_machine e) c (omega (arith, ap length h))
          ∙ rw h refl)

  -- When the first key has values, the last of them is the first row; then come the values of the
  -- second key, the last one first, and then the others of the first key.
  pub get_start_up_list_lem :
      (reported : Reported) (us ms : List Value) (x : Row) (xs : List Row) (c : Ctrl)
      → rows c ≡ []
      → reported current_user ≡ some us
      → reported local_machine ≡ some ms
      → reverse (map (value_row current_user) us) ≡ x ∷ xs
      → rows (get_start_up_list reported c)
        ≡ x ∷ (reverse_aux (map (value_row local_machine) ms) xs)
  unfolding get_start_up_list key_rows
  get_start_up_list_lem reported us ms x xs c empty user machine first =
      rw (key_rows, machine, user)
        (rows-machine ms x xs (value_rows current_user us c) (rows-user us c ∙ rw empty first))

  -- The command removes the value of this name from both keys, whichever key its row was of, and
  -- shows its message each time, whether or not the registry removed anything; the list then is that
  -- of a fresh enumeration, when the first key still has values.
  pub do_delete_lem :
      (first second : Reported) (name : Text) (us ms : List Value) (x : Row) (xs : List Row)
      (c : Ctrl)
      → second current_user ≡ some us
      → second local_machine ≡ some ms
      → reverse (map (value_row current_user) us) ≡ x ∷ xs
      → let (c', done) = do_delete first second name c in
        (done
          ≡ delete_value current_user name
            ∷ message_box
            ∷ delete_value local_machine name
            ∷ message_box
            ∷ [])
        × (rows c' ≡ x ∷ reverse_aux (map (value_row local_machine) ms) xs)
  unfolding do_delete delete_round
  do_delete_lem first second name us ms x xs c user machine h =
      (refl, get_start_up_list_lem second us ms x xs _ (rows-delete_all_items _) user machine h)

  -- A right click on the row of a value, of either key, and the command remove the values of this
  -- name from both keys; the list then is that of a fresh enumeration, when the first key still has
  -- values.
  pub on_command-on_rclick_value :
      (first second : Reported) (row : ℕ) (r : Root) (e : Value) (us ms : List Value) (x : Row)
      (xs : List Row) (d : StartUp)
      → get_elem? (rows d.list) row ≡ some (value_row r e)
      → second current_user ≡ some us
      → second local_machine ≡ some ms
      → reverse (map (value_row current_user) us) ≡ x ∷ xs
      → let (d', done) = on_command first second 32799 (on_rclick row d) in
        (done
          ≡ delete_value current_user e.name
            ∷ message_box
            ∷ delete_value local_machine e.name
            ∷ message_box
            ∷ [])
        × (rows d'.list ≡ x ∷ reverse_aux (map (value_row local_machine) ms) xs)
  unfolding on_command on_rclick
  on_command-on_rclick_value first second row r e us ms x xs d at_row user machine h =
      let text : get_item_text row 0 d.list ≡ e.name =
        get_item_text_lem row 0 d.list ∙ rw at_row refl in
      rw text (do_delete_lem first second e.name us ms x xs d.list user machine h)
