-- ===== src/Registry/Uninstall.antt =====
-- The programs that can be removed: ProcessMangerAlpha/CSoftwareUninstallDialog.cpp.
use process_manger_alpha.Base.{
  ℕ, suc, Option, none, some, List, [], ◌∷◌, ◌++◌, ◌≡◌, refl, sym, ap, ◌∙◌, arith, length,
  length-append, map, append_assoc, append-nil, ◌⊎◌, inl, inr,
}
use process_manger_alpha.Text.{Text, format_decimal}
use process_manger_alpha.ListView.{ListView, row_of}
use process_manger_alpha.ListView.Rows.{insert_row, rows-insert_row_last}

-- A key below Uninstall: what RegQueryValueEx reads for the seven names, if there is such a value.
pub record Software : Type 0 where
  pub display_name : Option Text
  pub uninstall_string : Option Text
  pub display_icon : Option Text
  pub display_version : Option Text
  pub publisher : Option Text
  pub install_date : Option Text
  pub install_location : Option Text

-- The buffers, which are declared in front of the loop.
pub record Buffers : Type 0 where
  pub soft_name : Text
  pub soft_uni_path : Text
  pub soft_ico : Text
  pub soft_ver : Text
  pub soft_ven_rel : Text
  pub soft_date : Text
  pub soft_ins_path : Text

-- A query that fails leaves its buffer as it was.
abbrev pub query : Option Text → Text → Text
query none old = old
query (some s) old = s

abbrev pub read_values : Software → Buffers → Buffers
read_values e b = record {
  soft_name = query e.display_name b.soft_name;
  soft_uni_path = query e.uninstall_string b.soft_uni_path;
  soft_ico = query e.display_icon b.soft_ico;
  soft_ver = query e.display_version b.soft_ver;
  soft_ven_rel = query e.publisher b.soft_ven_rel;
  soft_date = query e.install_date b.soft_date;
  soft_ins_path = query e.install_location b.soft_ins_path;
}

abbrev pub software_texts : Buffers → List Text
software_texts b =
    b.soft_name ∷ b.soft_ver ∷ b.soft_date ∷ b.soft_ins_path ∷ b.soft_uni_path ∷ b.soft_ven_rel
    ∷ b.soft_ico ∷ []

-- A key that has all seven values, and what it says.
abbrev pub Says : Software → Buffers → Type 0
Says e b =
    (e.display_name ≡ some b.soft_name)
    × (e.uninstall_string ≡ some b.soft_uni_path)
    × (e.display_icon ≡ some b.soft_ico)
    × (e.display_version ≡ some b.soft_ver)
    × (e.publisher ≡ some b.soft_ven_rel)
    × (e.install_date ≡ some b.soft_date)
    × (e.install_location ≡ some b.soft_ins_path)

abbrev pub AllSay : List Software → List Buffers → Type 0
AllSay [] [] = Unit {0}
AllSay (e ∷ es) (b ∷ bs) = Says e b × AllSay es bs
AllSay _ _ = ⊥

module _ (v : ListView) where
  open v use {Ctrl, rows, get_item_text, get_item_text_lem}

  -- The loop over the keys.
  unfoldable pub software_rows : ℕ → List Software → Buffers → Ctrl → Ctrl
  software_rows index [] b c = c
  software_rows index (e ∷ es) b c =
      let b' = read_values e b in
      software_rows (suc index) es b' (insert_row v index (software_texts b') c)

  -- getUniSoftInfo: the list, and the messages shown. The key Uninstall has these keys below it, or
  -- does not open, with an error code; the buffers are not set before the loop.
  unfoldable pub get_uni_soft_info : List Software ⊎ ℕ → Buffers → Ctrl → Ctrl × List Text
  unfolding software_rows
  get_uni_soft_info (inl keys) b c = (software_rows 0 keys b c, [])
  get_uni_soft_info (inr code) b c = (c, format_decimal code ∷ [])

  -- OnRclickList1, and then the command ID_32798: the path that ShellExecute opens.
  unfoldable pub do_uninstall : ℕ → Ctrl → Text
  do_uninstall row c = get_item_text row 4 c

  rows-software_rows :
      (index : ℕ) (es : List Software) (bs : List Buffers) (b : Buffers) (c : Ctrl)
      → AllSay es bs
      → index ≡ length (rows c)
      → rows (software_rows index es b c) ≡ rows c ++ map (λ b. row_of (software_texts b)) bs
  unfolding software_rows
  rows-software_rows index [] [] b c h e = sym (append-nil (rows c))
  rows-software_rows index [] (x ∷ bs) b c h e = absurd h
  rows-software_rows index (k ∷ ks) [] b c h e = absurd h
  rows-software_rows index (k ∷ ks) (x ∷ bs) b c ((name, uni, ico, ver, ven, date, ins), h) e =
      let texts : software_texts (read_values k b) ≡ software_texts x =
        rw (name, uni, ico, ver, ven, date, ins) refl in
      let shown = rows-insert_row_last v index (software_texts (read_values k b)) c e in
      let put : rows (insert_row v index (software_texts (read_values k b)) c)
          ≡ rows c ++ row_of (software_texts x) ∷ [] =
        shown ∙ ap (λ t. rows c ++ row_of t ∷ []) texts in
      rows-software_rows (suc index) ks bs (read_values k b) _ h
        (omega (arith, ap length put, length-append (rows c) (row_of (software_texts x) ∷ [])))
      ∙ rw put (
          append_assoc (rows c) (row_of (software_texts x) ∷ [])
            (map (λ b. row_of (software_texts b)) bs))

  -- The empty list is filled with the programs whose keys have all seven values, in order, each with
  -- its own values.
  pub get_uni_soft_info_lem :
      (keys : List Software) (says : List Buffers) (b : Buffers) (c : Ctrl)
      → rows c ≡ []
      → AllSay keys says
      → let (c', boxes) = get_uni_soft_info (inl keys) b c in
        rows c' ≡ map (λ b. row_of (software_texts b)) says
  unfolding get_uni_soft_info
  get_uni_soft_info_lem keys says b c e h =
      rows-software_rows 0 keys says b c h (rw e refl) ∙ rw e refl

  -- In an empty list filled with two programs, where the key of the second has no command to remove
  -- it, the menu on the row of the second runs the command that removes the first.
  pub do_uninstall_stale :
      (e f : Software) (b : Buffers) (c : Ctrl) {path : Text}
      → rows c ≡ []
      → e.uninstall_string ≡ some path
      → f.uninstall_string ≡ none
      → let (c', boxes) = get_uni_soft_info (inl (e ∷ f ∷ [])) b c in do_uninstall 1 c' ≡ path
  unfolding get_uni_soft_info software_rows do_uninstall
  do_uninstall_stale e f b c {path} empty has lacks =
      let b₁ = read_values e b in
      let b₂ = read_values f b₁ in
      let c₁ = insert_row v 0 (software_texts b₁) c in
      let r₁ : rows c₁ ≡ row_of (software_texts b₁) ∷ [] =
        rows-insert_row_last v 0 (software_texts b₁) c (rw empty refl) ∙ rw empty refl in
      let r₂ : rows (insert_row v 1 (software_texts b₂) c₁)
          ≡ row_of (software_texts b₁) ∷ row_of (software_texts b₂) ∷ [] =
        rows-insert_row_last v 1 (software_texts b₂) c₁ (rw r₁ refl) ∙ rw r₁ refl in
      get_item_text_lem 1 4 _ ∙ rw (r₂, lacks, has) refl
