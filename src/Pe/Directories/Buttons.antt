-- ===== src/Pe/Directories/Buttons.antt =====
-- What the buttons of the directory list open.
use process_manger_alpha.Base.{
  ℕ, ◌-◌, ◌≤◌, ◌≡◌, refl, arith, true, false, some, List, [], ◌∷◌, length, get_elem?, list_eq,
  length-append, length-replicate, replicate,
}
use process_manger_alpha.Text.{Text, format_hex, format_hex_padded, pad, upper}
use process_manger_alpha.Pe.Globals.{Globals, ◌>>=◌}
use process_manger_alpha.Pe.Directories.{
  box_text, open_exports, TableDialog, export_table, import_table, resource_table, reloc_table,
  tls_table, delay_load_table, Button, button1, button2, button3, button4, button7, button8,
  on_bn_clicked,
}

long-ne : (s : Text) (t : ℕ) → 2 ≤ length s → list_eq s (t ∷ []) ≡ false
long-ne [] t h = absurd (omega arith)
long-ne (x ∷ []) t h = absurd (omega arith)
long-ne (x ∷ y ∷ s) t h = ground arith

length-pad : (c w : ℕ) (s : Text) → w ≤ length (pad c w s)
length-pad c w s =
    omega (arith, length-append (replicate (w - length s) c) s, length-replicate (w - length s) c)

length-format_hex_padded : (w n : ℕ) → w ≤ length (format_hex_padded w n)
unfolding format_hex_padded
length-format_hex_padded w n = length-pad b'0' w (format_hex upper n)

-- The test for an empty export table never applies: the size is shown with eight digits, and is
-- compared with the text of a single one. So the export table opens for every size, zero too.
pub open_exports_always :
    (size : ℕ) (boxes : List Text) (g : Globals)
    → get_elem? boxes 16 ≡ some (format_hex_padded 8 size)
    → open_exports boxes g ≡ some (true, g)
unfolding open_exports
open_exports_always size boxes g e =
    let text : box_text 16 boxes ≡ format_hex_padded 8 size = rw (e, box_text) refl in
    let ne =
      long-ne (format_hex_padded 8 size) b'0' (omega (arith, length-format_hex_padded 8 size)) in
    rw (text, ne) refl

-- The dialog that a button is for.
abbrev pub dialog_of : Button → TableDialog
dialog_of button1 = export_table
dialog_of button2 = import_table
dialog_of button3 = resource_table
dialog_of button4 = reloc_table
dialog_of button7 = tls_table
dialog_of button8 = delay_load_table

-- Behind boxes that show the directory, every button opens its dialog, the one of the export table
-- too when the file has none, and leaves the globals.
pub on_bn_clicked_opens :
    (b : Button) (size : ℕ) (boxes : List Text) (g : Globals)
    → get_elem? boxes 16 ≡ some (format_hex_padded 8 size)
    → on_bn_clicked b boxes g ≡ some (some (dialog_of b), g)
unfolding on_bn_clicked
on_bn_clicked_opens button1 size boxes g e = rw (open_exports_always size boxes g e, ◌>>=◌) refl
on_bn_clicked_opens button2 size boxes g e = refl
on_bn_clicked_opens button3 size boxes g e = refl
on_bn_clicked_opens button4 size boxes g e = refl
on_bn_clicked_opens button7 size boxes g e = refl
on_bn_clicked_opens button8 size boxes g e = refl
