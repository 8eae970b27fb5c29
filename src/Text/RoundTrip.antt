-- ===== src/Text/RoundTrip.antt =====
-- Numbers that were printed are read back: in decimal every DWORD, in hexadecimal up to LONG_MAX.
use native.Mathlib.Nat.{pow-zero, pow-suc, mod-lt, div-lt_iff_lt-mul, div-add-mod'}
use process_manger_alpha.Base.{
  ◌==◌, ℕ, zero, suc, ◌+◌, ◌-◌, ◌*◌, ◌/◌, ◌%◌, ◌^◌, ◌<◌, ◌≤◌, min, ◌≡◌, refl, ◌∙◌, inl, inr, false,
  [], ◌∷◌, ◌++◌, arith, ltb, leb, Bool-cases, All, replicate, ap, lt→ltb, leb→le, length, some,
  List, NonZero, filled,
}
use process_manger_alpha.Text.{
  Text, Case, upper, digit, digits, format_hex, format_hex_padded, format_decimal, digit_value,
  is_space, skip_spaces, split_sign, skip_prefix, read_digits, long_max, dword_mod, tcstol, cstring,
}

digit_value-digit : (k : Case) (d : ℕ) → d < 16 → digit_value (digit k d) ≡ d
unfolding digit_value
digit_value-digit k d h = ground arith

-- A character that stands for a digit below 16 is no blank, no sign and no `x`.
IsDigit : ℕ → Type 0
IsDigit c = digit_value c < 16

digit-IsDigit : (k : Case) (d : ℕ) → d < 16 → IsDigit (digit k d)
unfolding IsDigit
digit-IsDigit k d h = rw (digit_value-digit k d h) h

module _ (b : ℕ) (two : 2 ≤ b) (small : b ≤ 16) where
  remainder-lt : (n : ℕ) → (n % b < b) × (n % b < 16)
  remainder-lt n = let h : n % b < b = mod-lt n (omega arith) in (h, omega arith)

  digits-All :
      (k : Case) (f n : ℕ) (rest : Text) → All IsDigit rest → All IsDigit (digits k b f n rest)
  unfolding digits
  digits-All k zero n rest h = h
  digits-All k (suc f) n rest h = elim (Bool-cases (ltb n b)) [
    | inl e ↦ rw e (digit-IsDigit k n (ground arith), h)
    | inr e ↦ rw e (digits-All k f (n / b) _ (digit-IsDigit k (n % b) (remainder-lt n).1, h))
  ]

  read_digit :
      (k : Case) (acc d : ℕ) (rest : Text)
      → d < b
      → read_digits b acc (digit k d ∷ rest) ≡ read_digits b (acc * b + d) rest
  unfolding read_digits
  read_digit k acc d rest h = rw (digit_value-digit k d (omega arith)) (rw (lt→ltb d b h))

  read_digits-digits :
      (k : Case) (f n : ℕ) (rest : Text)
      → n < b ^ f
      → read_digits b 0 (digits k b f n rest) ≡ read_digits b n rest
  unfolding digits
  read_digits-digits k zero n rest h =
      let e : 0 ≡ n = omega (arith, pow-zero b) in ap (λ m. read_digits b m rest) e
  read_digits-digits k (suc f) n rest h = elim (Bool-cases (ltb n b)) [
    | inl e ↦
        rw e (read_digit k 0 n rest (ground arith) ∙ ap (λ m. read_digits b m rest) (omega arith))
    | inr e ↦ rw e (
        read_digits-digits k f (n / b) _ ((div-lt_iff_lt-mul (omega arith)).1 (rw pow-suc at h))
        ∙ read_digit k (n / b) (n % b) rest (remainder-lt n).0
        ∙ ap (λ m. read_digits b m rest) (div-add-mod' n b))
  ]

-- A text of digits has nothing in front of them.
read_prefix :
    (b : ℕ) (s : Text)
    → All IsDigit s
    → (split_sign (skip_spaces s) ≡ (false, s)) × (skip_prefix b s ≡ s)
unfolding IsDigit digit_value is_space skip_spaces split_sign skip_prefix
read_prefix b [] h = (refl, refl)
read_prefix b (c ∷ []) h = (ground arith, refl)
read_prefix b (c ∷ d ∷ s) h = (ground arith, ground arith)

tcstol-digits : (b : ℕ) (s : Text) → All IsDigit s → tcstol b s ≡ min (read_digits b 0 s) long_max
unfolding tcstol
tcstol-digits b s h = rw (read_prefix b s h).0 (rw (read_prefix b s h).1)

-- The zeros that fill a number up.
zeros-All : (n : ℕ) (s : Text) → All IsDigit s → All IsDigit (replicate n b'0' ++ s)
unfolding IsDigit digit_value
zeros-All zero s h = h
zeros-All (suc n) s h = (omega arith, zeros-All n s h)

read_zeros : (n : ℕ) (s : Text) → read_digits 16 0 (replicate n b'0' ++ s) ≡ read_digits 16 0 s
unfolding read_digits digit_value
read_zeros zero s = refl
read_zeros (suc n) s = read_zeros n s

-- A DWORD printed by `%.wX` and read back by `_tcstol(s, NULL, 16)` is cut to LONG_MAX.
pub tcstol-format_hex_padded :
    (w n : ℕ) → n < dword_mod → tcstol 16 (format_hex_padded w n) ≡ min n long_max
unfolding format_hex_padded
tcstol-format_hex_padded w n h =
    let s = digits upper 16 8 n [] in
    let fill = w - length s in
    tcstol-digits 16 _
      (zeros-All fill s (digits-All 16 (omega arith) (omega arith) upper 8 n [] tt))
    ∙ rw (read_zeros fill s) (
        rw (read_digits-digits 16 (omega arith) (omega arith) upper 8 n [] h)
          (unfold read_digits in refl))

read_decimal :
    (n : ℕ)
    → n < dword_mod
    → (read_digits 10 0 (digits upper 10 10 n []) ≡ n) × All IsDigit (digits upper 10 10 n [])
read_decimal n h = (
  read_digits-digits 10 (omega arith) (omega arith) upper 10 n [] (omega arith)
      ∙ unfold read_digits in refl,
  digits-All 10 (omega arith) (omega arith) upper 10 n [] tt,
)

tcstol-negative :
    (s : Text)
    → All IsDigit s
    → tcstol 10 (b'-' ∷ s) ≡ (dword_mod - min (read_digits 10 0 s) (long_max + 1)) % dword_mod
unfolding tcstol is_space skip_spaces split_sign
tcstol-negative s h = rw (read_prefix 10 s h).1

-- Every DWORD printed by `%d` and read back by `_tcstol(s, NULL, 10)` is itself: above LONG_MAX it
-- is printed as a negative number, which is read as one.
pub tcstol-format_decimal : (n : ℕ) → n < dword_mod → tcstol 10 (format_decimal n) ≡ n
unfolding format_decimal
tcstol-format_decimal n h = elim (Bool-cases (leb n long_max)) [
  | inl e ↦
      let (value, all) = read_decimal n h in
      rw e (tcstol-digits 10 _ all ∙ rw value (omega (arith, leb→le n long_max e)))
  | inr e ↦
      let large : long_max < n = ground arith in
      let (value, all) = read_decimal (dword_mod - n) (omega arith) in
      rw e (tcstol-negative _ all ∙ rw value (omega arith))
]

-- The same for `%X`.
pub tcstol-format_hex : (n : ℕ) → n < dword_mod → tcstol 16 (format_hex upper n) ≡ min n long_max
unfolding format_hex
tcstol-format_hex n h =
    tcstol-digits 16 _ (digits-All 16 (omega arith) (omega arith) upper 8 n [] tt)
    ∙ rw (read_digits-digits 16 (omega arith) (omega arith) upper 8 n [] h)
        (unfold read_digits in refl)

-- A C string is read back from an array that holds it, its zero byte and whatever follows.
pub cstring-append : (s rest : List ℕ) → NonZero s → cstring (s ++ 0 ∷ rest) ≡ some s
unfolding cstring
cstring-append [] rest h = refl
cstring-append (c ∷ s) rest (h, hs) = rw (cstring, h, cstring-append s rest hs) refl

pub cstring-filled : (n : ℕ) (s : List ℕ) → NonZero s → length s < n → cstring (filled n s) ≡ some s
unfolding cstring
cstring-filled zero s h l = absurd (omega arith)
cstring-filled (suc n) [] h l = refl
cstring-filled (suc n) (c ∷ s) (h, hs) l = rw (cstring, h, cstring-filled n s hs (omega arith)) refl

-- A zero byte in the middle ends the string, whatever stands behind it.
pub cstring-filled_front :
    (m n : ℕ) (s more : List ℕ)
    → NonZero s
    → length s < m
    → m ≤ n
    → cstring (filled n (filled m s ++ more)) ≡ some s
unfolding cstring
cstring-filled_front zero n s more h l k = absurd (omega arith)
cstring-filled_front (suc m) zero s more h l k = absurd (omega arith)
cstring-filled_front (suc m) (suc n) [] more h l k = refl
cstring-filled_front (suc m) (suc n) (c ∷ s) more (h, hs) l k =
    rw (cstring, h, cstring-filled_front m n s more hs (omega arith) (omega arith)) refl

-- With room for a zero byte behind it, whatever is in an array of zeros has an end.
pub cstring-filled_any :
    (n : ℕ) (xs : List ℕ) → length xs < n → (s : Text) × (cstring (filled n xs) ≡ some s)
unfolding cstring
cstring-filled_any zero xs h = absurd (omega arith)
cstring-filled_any (suc n) [] h = ([], refl)
cstring-filled_any (suc n) (c ∷ xs) h =
    let (s, e) = cstring-filled_any n xs (omega arith) in
    elim (Bool-cases (c == 0)) [
      | inl zero_byte ↦ ([], rw (cstring, zero_byte) refl)
      | inr other ↦ (c ∷ s, rw (cstring, other, e) refl)
    ]
