-- ===== src/Text/Hex.antt =====
-- The digits of an MD5: their number, and that their letter case shows.
use process_manger_alpha.Base.{
  ℕ, ◌*◌, ◌/◌, ◌%◌, ◌<◌, ◌≤◌, ◌==◌, ◌≡◌, refl, ◌⊎◌, inl, inr, true, false, List, [], ◌∷◌, arith,
  length, All, list_eq, NonZero, Bool-cases,
}
use process_manger_alpha.Text.{
  Text, Case, upper, lower, digit, digits, format_hex, format_byte, hex_text, is_space,
}

unfoldable pub IsByte : ℕ → Type 0
IsByte b = b < 256

-- The two digits of a byte.
format_byte_lem :
    (k : Case) (b : ℕ) → b < 256 → format_byte k b ≡ digit k (b / 16) ∷ digit k (b % 16) ∷ []
unfolding format_byte format_hex digits
format_byte_lem upper b h = ground arith
format_byte_lem lower b h = ground arith

pub length-hex_text :
    (k : Case) (bs : List ℕ) → All IsByte bs → length (hex_text k bs) ≡ 2 * length bs
unfolding hex_text IsByte
length-hex_text k [] h = omega arith
length-hex_text k (b ∷ bs) (hb, h) =
    rw (format_byte_lem k b hb) (omega (arith, length-hex_text k bs h))

-- A character that is neither a zero byte nor a blank.
unfoldable pub IsMark : ℕ → Type 0
IsMark c = ((c == 0) ≡ false) × (is_space c ≡ false)

digit-IsMark : (k : Case) (d : ℕ) → d < 16 → IsMark (digit k d)
unfolding IsMark is_space
digit-IsMark upper d h = ground arith
digit-IsMark lower d h = ground arith

pub hex_text-IsMark : (k : Case) (bs : List ℕ) → All IsByte bs → All IsMark (hex_text k bs)
unfolding hex_text IsByte
hex_text-IsMark k [] h = tt
hex_text-IsMark k (b ∷ bs) (hb, h) = rw (format_byte_lem k b hb) (
  digit-IsMark k (b / 16) (omega arith),
  (digit-IsMark k (b % 16) (omega arith), hex_text-IsMark k bs h),
)

pub IsMark-NonZero : (s : Text) → All IsMark s → NonZero s
unfolding IsMark
IsMark-NonZero [] h = tt
IsMark-NonZero (c ∷ s) (hc, h) = (hc.0, IsMark-NonZero s h)

-- One of the digits is a letter.
unfoldable pub HasLetter : List ℕ → Type 0
HasLetter [] = ⊥
HasLetter (b ∷ bs) = ((10 ≤ b / 16) ⊎ (10 ≤ b % 16)) ⊎ HasLetter bs

digit_letters :
    (c d : ℕ) (s t : Text)
    → c < 16
    → d < 16
    → (10 ≤ c) ⊎ (10 ≤ d)
    → list_eq (digit upper c ∷ digit upper d ∷ s) (digit lower c ∷ digit lower d ∷ t) ≡ false
digit_letters c d s t hc hd (inl l) =
    let e : (digit upper c == digit lower c) ≡ false = ground arith in rw e refl
digit_letters c d s t hc hd (inr l) =
    let e : (digit upper d == digit lower d) ≡ false = ground arith in
    elim (Bool-cases (digit upper c == digit lower c)) [
      | inl same ↦ rw (same, e) refl
      | inr other ↦ rw other refl
    ]

list_eq_tail :
    (a b a' b' : ℕ) (s t : Text) → list_eq s t ≡ false → list_eq (a ∷ b ∷ s) (a' ∷ b' ∷ t) ≡ false
list_eq_tail a b a' b' s t h = elim (Bool-cases (a == a')) [
  | inl same ↦ elim (Bool-cases (b == b')) [
    | inl same' ↦ rw (same, same') h
    | inr other ↦ rw (same, other) refl
  ]
  | inr other ↦ rw other refl
]

-- In upper case and in lower case the digits differ when there is a letter among them.
pub list_eq-hex_text :
    (bs : List ℕ)
    → All IsByte bs
    → HasLetter bs
    → list_eq (hex_text upper bs) (hex_text lower bs) ≡ false
unfolding hex_text IsByte HasLetter
list_eq-hex_text [] h l = absurd l
list_eq-hex_text (b ∷ bs) (hb, h) (inl here) =
    rw (format_byte_lem upper b hb, format_byte_lem lower b hb)
      (digit_letters (b / 16) (b % 16) (hex_text upper bs) (hex_text lower bs) (omega arith)
        (omega arith) here)
list_eq-hex_text (b ∷ bs) (hb, h) (inr later) =
    rw (format_byte_lem upper b hb, format_byte_lem lower b hb)
      (list_eq_tail (digit upper (b / 16)) (digit upper (b % 16)) (digit lower (b / 16))
        (digit lower (b % 16)) (hex_text upper bs) (hex_text lower bs)
        (list_eq-hex_text bs h later))

pub list_eq_refl : (s : List ℕ) → list_eq s s ≡ true
list_eq_refl [] = refl
list_eq_refl (c ∷ s) = let e : (c == c) ≡ true = ground arith in rw e (list_eq_refl s)
