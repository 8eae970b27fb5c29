-- ===== src/Pe/AddressCalc/Trip.antt =====
-- A place in the file that a calculation shows, entered again in the mode for places in the file.
use process_manger_alpha.Base.{ℕ, ◌+◌, ◌-◌, ◌≤◌, some, List, ◌∷◌, ◌++◌, ◌≡◌, refl, ◌∙◌, arith}
use process_manger_alpha.Text.{Text, upper, format_hex, tcstol, long_max}
use process_manger_alpha.Text.RoundTrip.{tcstol-format_hex}
use process_manger_alpha.Pe.Image.{Image, dword_at}
use process_manger_alpha.Pe.Globals.{Globals, Ptr, ◌>>=◌}
use process_manger_alpha.Pe.Headers.{add_dword}
use process_manger_alpha.Pe.Address.{rva_to_foa, foa_to_rva}
use process_manger_alpha.Pe.Address.Table.{Section, HasTable}
use process_manger_alpha.Pe.Address.Layout.{Fits, both_ways}
use process_manger_alpha.Pe.AddressCalc.{
  Calculator, image_base, from_rva, from_foa, choose_foa, clear_texts, calculate,
}
use process_manger_alpha.Pe.AddressCalc.Results.{dump, show_place_appends}

-- What a calculation from `rva` leaves, in a state where it is read and moved to `foa`.
image_base_lem :
    (base : ℕ) (g : Globals) {p : Ptr}
    → g.opt_head ≡ some p
    → dword_at p.into (p.offset + 28) ≡ some base
    → image_base g ≡ some (base, g)
unfolding image_base
image_base_lem base g opt word = ground arith

from_rva_shows :
    (rva foa base : ℕ) (d : Calculator) (g g' : Globals) {img : Image} {t : Text}
    → image_base g ≡ some (base, g)
    → tcstol 16 d.rva_text ≡ rva
    → rva_to_foa rva g ≡ some (foa, g')
    → g'.file_buff ≡ some img
    → dump img 8 foa ≡ some t
    → from_rva d g
      ≡ some (
        record d {
          va_text = format_hex upper (add_dword rva base);
          foa_text = format_hex upper foa;
          section_text = g'.section_name;
          bytes_text = d.bytes_text ++ t;
        },
        g',
      )
unfolding from_rva
from_rva_shows rva foa base d g g' {img} {t} h read moved loaded bytes =
    rw (h, from_rva, ◌>>=◌)
      (rw (read, ◌>>=◌, moved, read)
        (show_place_appends foa
          (record d {
            va_text = format_hex upper (add_dword rva base);
            foa_text = format_hex upper foa;
          })
          g' loaded bytes))

from_foa_shows :
    (rva foa base : ℕ) (d : Calculator) (g g' : Globals) {img : Image} {t : Text}
    → image_base g' ≡ some (base, g')
    → tcstol 16 d.foa_text ≡ foa
    → foa_to_rva foa g ≡ some (rva, g')
    → g'.file_buff ≡ some img
    → dump img 8 foa ≡ some t
    → from_foa d g
      ≡ some (
        record d {
          rva_text = format_hex upper rva;
          va_text = format_hex upper (add_dword rva base);
          section_text = g'.section_name;
          bytes_text = d.bytes_text ++ t;
        },
        g',
      )
unfolding from_foa
from_foa_shows rva foa base d g g' {img} {t} h read moved loaded bytes =
    rw (read, from_foa, ◌>>=◌)
      (rw (moved, ◌>>=◌, h, read)
        (show_place_appends foa
          (record d {
            rva_text = format_hex upper rva;
            va_text = format_hex upper (add_dword rva base);
          })
          g' loaded bytes))

calculate_rva : (d : Calculator) (g : Globals) → d.active ≡ 2 → calculate d g ≡ from_rva d g
unfolding calculate
calculate_rva d g mode = simp mode refl

-- With the image base known, an address of the first section, which does not lie further back in the
-- file than in memory, at a place of the file that is at most LONG_MAX and has eight bytes: the
-- calculation from the address shows a place, and when the mode for places is chosen then and that
-- place entered, the next calculation shows the address again, the same address in memory and the
-- same section. The bytes shown first are those shown then, behind what the box for them held.
pub calculate-choose_foa :
    (rva base : ℕ) (s : Section) (ss : List Section) (d : Calculator) (g : Globals) {img : Image}
    {p : Ptr} {t : Text}
    → HasTable g img (s ∷ ss)
    → Fits s
    → s.raw_start ≤ s.va
    → s.va ≤ rva
    → rva ≤ s.va + s.raw_size
    → s.raw_start + (rva - s.va) ≤ long_max
    → g.opt_head ≡ some p
    → dword_at p.into (p.offset + 28) ≡ some base
    → dump img 8 (s.raw_start + (rva - s.va)) ≡ some t
    → d.active ≡ 2
    → tcstol 16 d.rva_text ≡ rva
    → (d' d'' : Calculator) × (g' : Globals) × (calculate d g ≡ some (d', g'))
      × (calculate (record (choose_foa d') { foa_text = d'.foa_text }) g' ≡ some (d'', g'))
      × (d''.rva_text ≡ format_hex upper rva)
      × (d''.va_text ≡ d'.va_text)
      × (d''.section_text ≡ d'.section_text)
      × (d'.bytes_text ≡ d.bytes_text ++ d''.bytes_text)
unfolding calculate choose_foa clear_texts
calculate-choose_foa rva base s ss d g {img} {p} {t} h fits low lo hi small opt word bytes mode
      read =
    let foa = s.raw_start + (rva - s.va) in
    let g' = record g { section_name = s.name } in
    let (there, back) = both_ways rva s ss g h fits low lo hi in
    let shown =
      from_rva_shows rva foa base d g g' (image_base_lem base g opt word) read there h.in_buffer
        bytes in
    let d' = record d {
      va_text = format_hex upper (add_dword rva base);
      foa_text = format_hex upper foa;
      section_text = s.name;
      bytes_text = d.bytes_text ++ t;
    } in
    let typed : tcstol 16 (format_hex upper foa) ≡ foa =
      tcstol-format_hex foa (omega arith) ∙ omega arith in
    let again =
      from_foa_shows rva foa base (record (choose_foa d') { foa_text = d'.foa_text }) g' g'
        (image_base_lem base g' opt word) typed back h.in_buffer bytes in
    (d', _, g', calculate_rva d g mode ∙ shown, again, refl, refl, refl, refl)
