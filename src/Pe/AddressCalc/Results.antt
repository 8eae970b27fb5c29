-- ===== src/Pe/AddressCalc/Results.antt =====
-- What a calculation shows.
use process_manger_alpha.Base.{
  ℕ, zero, suc, ◌+◌, ◌≤◌, ◌<◌, Option, none, some, [], ◌++◌, ◌≡◌, refl, sym, ◌∙◌, ap, arith,
  append-nil, append_assoc, Option-cases, inl, inr,
}
use process_manger_alpha.Text.{Text, upper, format_hex, tcstol, dword_mod, long_max}
use process_manger_alpha.Text.RoundTrip.{tcstol-format_hex}
use process_manger_alpha.Pe.Image.{Image, byte_at}
use process_manger_alpha.Pe.Globals.{Globals, ◌>>=◌, need}
use process_manger_alpha.Pe.Headers.{add_dword}
use process_manger_alpha.Pe.Address.{sub_dword, rva_to_foa}
use process_manger_alpha.Pe.AddressCalc.{
  Calculator, append_bytes, byte_text, show_place, image_base, from_va, from_rva,
}

abbrev in_front : Text → Option Text → Option Text
in_front s none = none
in_front s (some t) = some (s ++ t)

-- The bytes at an offset, each with its text; the address wraps as the pointer does.
unfoldable pub dump : Image → ℕ → ℕ → Option Text
dump img zero o = some []
dump img (suc n) o = elim (byte_at img o) [
  | none ↦ none
  | some b ↦ in_front (byte_text b) (dump img n (o + 1))
]

abbrev added : Text → Globals → Option Text → Option (Text × Globals)
added shown g none = none
added shown g (some t) = some (shown ++ t, g)

added-append :
    (shown s : Text) (g : Globals) (o : Option Text)
    → added (shown ++ s) g o ≡ added shown g (in_front s o)
added-append shown s g none = refl
added-append shown s g (some t) = ap (λ u. some (u, g)) (append_assoc shown s t)

append_bytes-dump :
    (img : Image) (n o : ℕ) (shown : Text) (g : Globals)
    → append_bytes img n o shown g ≡ added shown g (dump img n o)
unfolding append_bytes dump
append_bytes-dump img zero o shown g = ap (λ t. some (t, g)) (sym (append-nil shown))
append_bytes-dump img (suc n) o shown g = elim (Option-cases (byte_at img o)) [
  | inl e ↦ rw (e, ◌>>=◌, need, dump)
  | inr (b, e) ↦
      rw (e, ◌>>=◌, need, dump)
        (append_bytes-dump img n (o + 1) (shown ++ byte_text b) g
          ∙ added-append shown (byte_text b) g (dump img n (o + 1)))
]

-- With an image base known, the calculation from the address `rva + base` and the one from `rva`
-- leave the same texts, places and bytes alike, if `rva + base` is at most LONG_MAX.
pub from_va-from_rva :
    (rva base : ℕ) (d : Calculator) (g : Globals)
    → image_base g ≡ some (base, g)
    → rva + base ≤ long_max
    → from_va (record d { va_text = format_hex upper (rva + base) }) g
      ≡ from_rva (record d { rva_text = format_hex upper rva }) g
unfolding from_va from_rva
from_va-from_rva rva base d g h small =
    let read_va : tcstol 16 (format_hex upper (rva + base)) ≡ rva + base =
      tcstol-format_hex (rva + base) (omega arith) ∙ omega arith in
    let read_rva : tcstol 16 (format_hex upper rva) ≡ rva =
      tcstol-format_hex rva (omega arith) ∙ omega arith in
    let back : sub_dword (rva + base) base ≡ rva = omega arith in
    let there : add_dword rva base ≡ rva + base = omega arith in
    rw (h, from_va, from_rva, ◌>>=◌) (rw (read_va, read_rva, back, there))

-- An address in memory above LONG_MAX is read as LONG_MAX: the place shown is the one for that.
pub from_va_saturates :
    (va : ℕ) (d : Calculator) (g : Globals) {base : ℕ}
    → image_base g ≡ some (base, g)
    → long_max < va
    → va < dword_mod
    → from_va (record d { va_text = format_hex upper va }) g
      ≡ (do
        foa ← rva_to_foa (sub_dword long_max base)
        show_place foa (record d {
          va_text = format_hex upper va;
          rva_text = format_hex upper (sub_dword long_max base);
          foa_text = format_hex upper foa;
        }))
          g
unfolding from_va
from_va_saturates va d g h big small =
    let read_va : tcstol 16 (format_hex upper va) ≡ long_max =
      tcstol-format_hex va small ∙ omega arith in
    rw (h, from_va, ◌>>=◌) (rw read_va)

-- The eight bytes are appended to what the box for them already shows.
pub show_place_appends :
    (foa : ℕ) (d : Calculator) (g : Globals) {img : Image} {t : Text}
    → g.file_buff ≡ some img
    → dump img 8 foa ≡ some t
    → show_place foa d g
      ≡ some (record d { section_text = g.section_name; bytes_text = d.bytes_text ++ t }, g)
unfolding show_place
show_place_appends foa d g {img} {t} e f =
    let shown = append_bytes-dump img 8 foa d.bytes_text g in ground arith
