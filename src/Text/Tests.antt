-- ===== src/Text/Tests.antt =====
-- Printing and reading on sample numbers.
use process_manger_alpha.Base.{◌≡◌, refl}
use process_manger_alpha.Text.{
  codes, upper, lower, format_hex, format_hex_padded, format_hex_blank, format_byte, format_decimal,
  tcstol,
}

format_samples :
    (format_hex upper 0x12ab ≡ codes "12AB")
    × (format_hex_padded 8 0x12ab ≡ codes "000012AB")
    × (format_hex_padded 4 0x12345 ≡ codes "12345")
    × (format_hex_blank 8 0x12ab ≡ codes "    12AB")
    × (format_byte lower 10 ≡ codes "0a")
    × (format_decimal 0xffff_ffff ≡ codes "-1")
unfolding format_hex_padded format_hex_blank format_byte format_decimal
format_samples = (refl, refl, refl, refl, refl, refl)

tcstol_samples :
    (tcstol 16 (codes " 0x1Fz") ≡ 31)
    × (tcstol 16 (codes "FFFFFFFF") ≡ 0x7fff_ffff)
    × (tcstol 10 (codes "-1") ≡ 0xffff_ffff)
    × (tcstol 10 (codes "") ≡ 0)
unfolding tcstol
tcstol_samples = (refl, refl, refl, refl)
