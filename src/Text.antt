-- ===== src/Text.antt =====
-- Texts (`CString`) as lists of character codes, the conversions of `CString::Format` that the
-- dialogs use, and `_tcstol`, by which a dialog reads a number back from a list or an edit box.
pub mod Hex
pub mod RoundTrip
mod Tests
use Prim.Native.Char.{code}
use Prim.Native.String.{String}
use process_manger_alpha.Base.{
  ℕ, zero, suc, ◌+◌, ◌-◌, ◌*◌, ◌/◌, ◌%◌, ◌^◌, min, Bool, true, false, ◌&&◌, ◌||◌, List, [], ◌∷◌,
  ◌++◌, Option, none, some, ltb, leb, ◌==◌, if◌then◌else◌, length, replicate,
}

abbrev pub Text : Type 0
Text = List ℕ

-- The character codes of a literal.
abbrev pub codes : String → Text
codes String.[] = []
codes (String.◌∷◌ c s) = code c ∷ codes s

-- A DWORD holds 32 bits, and a signed long too.
abbrev pub dword_mod : ℕ
dword_mod = 2 ^ 32

abbrev pub long_max : ℕ
long_max = 2 ^ 31 - 1

-- The letter case of the digits from ten on: `%X` or `%x`.
pub data Case : Type 0 where
  upper lower : Case

abbrev pub first_letter : Case → ℕ
first_letter upper = b'A'
first_letter lower = b'a'

abbrev pub digit : Case → ℕ → ℕ
digit k d = if ltb d 10 then b'0' + d else first_letter k + (d - 10)

-- The digits of `n` in base `b`, in front of `rest`; the fuel bounds their number.
pub digits : Case → ℕ → ℕ → ℕ → Text → Text
digits k b zero n rest = rest
digits k b (suc f) n rest =
    let more = digits k b f (n / b) (digit k (n % b) ∷ rest) in
    if ltb n b then digit k n ∷ rest else more

-- At least `w` characters, filled up on the left.
abbrev pub pad : ℕ → ℕ → Text → Text
pad c w s = replicate (w - length s) c ++ s

-- `%X` and `%x` of a DWORD.
unfoldable pub format_hex : Case → ℕ → Text
unfolding digits
format_hex k n = digits k 16 8 n []

-- `%.8X`, `%.4X`: at least that many digits.
unfoldable pub format_hex_padded : ℕ → ℕ → Text
unfolding format_hex
format_hex_padded w n = pad b'0' w (format_hex upper n)

-- `%02x` and `%02X` of a byte.
unfoldable pub format_byte : Case → ℕ → Text
unfolding format_hex
format_byte k n = pad b'0' 2 (format_hex k n)

-- Two digits for each byte.
unfoldable pub hex_text : Case → List ℕ → Text
unfolding format_byte
hex_text k [] = []
hex_text k (b ∷ bs) = format_byte k b ++ hex_text k bs

-- `%8X`: filled up with blanks.
unfoldable pub format_hex_blank : ℕ → ℕ → Text
unfolding format_hex
format_hex_blank w n = pad b' ' w (format_hex upper n)

-- `%d` of 32 bits, which reads them as a signed number.
unfoldable pub format_decimal : ℕ → Text
unfolding digits
format_decimal n =
    if leb n long_max then digits upper 10 10 n [] else b'-' ∷ digits upper 10 10 (dword_mod - n) []

-- The value of a digit; a character that is none has a value above every base.
pub digit_value : ℕ → ℕ
digit_value c =
    if leb b'0' c && leb c b'9'
    then c - b'0'
    else if leb b'A' c && leb c b'Z'
    then c - b'A' + 10
    else if leb b'a' c && leb c b'z'
    then c - b'a' + 10
    else 99

unfoldable pub is_space : ℕ → Bool
is_space c = c == b' ' || (leb 9 c && leb c 13)

unfoldable pub skip_spaces : Text → Text
unfolding is_space
skip_spaces [] = []
skip_spaces (c ∷ s) = if is_space c then skip_spaces s else c ∷ s

-- Whether the number is negative, and what follows its sign.
pub split_sign : Text → Bool × Text
split_sign [] = (false, [])
split_sign (c ∷ s) =
    if c == b'-' then (true, s) else if c == b'+' then (false, s) else (false, c ∷ s)

-- In base 16 a leading `0x` is passed over.
pub skip_prefix : ℕ → Text → Text
skip_prefix b (z ∷ x ∷ s) =
    if b == 16 && (z == b'0' && (x == b'x' || x == b'X')) then s else z ∷ x ∷ s
skip_prefix b s = s

-- The digits read so far are `acc`; reading ends at the first character that is no digit.
pub read_digits : ℕ → ℕ → Text → ℕ
read_digits b acc [] = acc
read_digits b acc (c ∷ s) =
    let more = read_digits b (acc * b + digit_value c) s in
    if ltb (digit_value c) b then more else acc

-- A long as the DWORD that the source assigns it to; a value out of range is cut to the nearest one.
abbrev pub long_of : Bool → ℕ → ℕ
long_of false n = min n long_max
long_of true n = (dword_mod - min n (long_max + 1)) % dword_mod

-- `(DWORD)_tcstol(s, NULL, b)`.
unfoldable pub tcstol : ℕ → Text → ℕ
unfolding digit_value is_space skip_spaces split_sign skip_prefix read_digits
tcstol b s =
    let (negative, digits_part) = split_sign (skip_spaces s) in
    long_of negative (read_digits b 0 (skip_prefix b digits_part))

-- The bytes of a C string: those before the first zero byte. With no zero byte in the memory at
-- hand the read runs out of it.
unfoldable pub cstring : List ℕ → Option Text
cstring [] = none
cstring (c ∷ s) = elim (c == 0) [
  | true ↦ some []
  | false ↦ elim (cstring s) [ none ↦ none | some t ↦ some (c ∷ t) ]
]
