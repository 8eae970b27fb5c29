-- ===== src/Tests/Session.antt =====
-- The theorems on the client and the server at small stand-ins of OpenSSL and MySQL: a cipher that
-- adds one to each byte, with padding to whole blocks, and a table of texts.
use process_manger_alpha.Base.{
  ℕ, zero, suc, ◌+◌, ◌-◌, ◌*◌, ◌/◌, ◌%◌, ◌≤◌, ◌≡◌, refl, ap, ◌∙◌, List, [], ◌∷◌, ◌++◌, arith,
  append_assoc, length, length-append, length-take, length-filled, take, replicate, filled,
  take-append_le,
}
use process_manger_alpha.Crypto.{OpenSsl}
use process_manger_alpha.Crypto.Des.{IsEcb, ciphertext}

pub record Context : Type 0 where
  pub direction : ℕ
  pub held : List ℕ

abbrev plus_one : List ℕ → List ℕ
plus_one [] = []
plus_one (b ∷ bs) = suc b ∷ plus_one bs

abbrev minus_one : List ℕ → List ℕ
minus_one [] = []
minus_one (b ∷ bs) = (b - 1) ∷ minus_one bs

abbrev toy_update : List ℕ → Context → List ℕ × Context
toy_update d c = elim c.direction [
  | zero ↦ (minus_one (take (8 * ((length d - 1) / 8)) d), c)
  | suc _ ↦ ([], record c { held = d })
]

abbrev toy_final : Context → List ℕ
toy_final c = elim c.direction [
  | zero ↦ []
  | suc _ ↦ plus_one (filled (8 * (length c.held / 8 + 1)) c.held)
]

abbrev pub toy : OpenSsl
toy = record {
  Ctx = Context;
  ctx_new = record { direction = 0; held = [] };
  set_padding = λ n c. c;
  cipher_init = λ key enc c. record c { direction = enc };
  cipher_update = toy_update;
  cipher_final = toy_final;
  Md5 = List ℕ;
  md5_init = [];
  md5_update = λ d s. s ++ d;
  md5_final = λ s. take 16 (s ++ replicate 16 0xab);
}

length-plus_one : (xs : List ℕ) → length (plus_one xs) ≡ length xs
length-plus_one [] = refl
length-plus_one (x ∷ xs) = ap suc (length-plus_one xs)

length-minus_one : (xs : List ℕ) → length (minus_one xs) ≡ length xs
length-minus_one [] = refl
length-minus_one (x ∷ xs) = ap suc (length-minus_one xs)

plus_one-filled :
    (n : ℕ) (d : List ℕ)
    → length d ≤ n
    → (more : List ℕ) × (plus_one (filled n d) ≡ plus_one d ++ more)
plus_one-filled n [] h = (plus_one (filled n []), refl)
plus_one-filled zero (x ∷ d) h = absurd (omega arith)
plus_one-filled (suc n) (x ∷ d) h =
    let (more, e) = plus_one-filled n d (omega arith) in (more, ap (◌∷◌ (suc x)) e)

minus_one-append : (d r : List ℕ) → minus_one (plus_one d ++ r) ≡ d ++ minus_one r
minus_one-append [] r = refl
minus_one-append (x ∷ d) r =
    let e : suc x - 1 ≡ x = omega arith in rw e (ap (◌∷◌ x) (minus_one-append d r))

pub toy-IsEcb : (key : List ℕ) → IsEcb toy key
toy-IsEcb key = record {
  padded = λ d.
      length-plus_one (filled (8 * (length d / 8 + 1)) d)
      ∙ length-filled (8 * (length d / 8 + 1)) d;
  decrypts = decrypts;
  held_back = λ n d e.
      length-minus_one (take (8 * ((length d - 1) / 8)) d)
      ∙ length-take (8 * ((length d - 1) / 8)) d (omega arith)
      ∙ omega arith;
  last_block = λ d. omega arith;
}
  where
    decrypts :
        (d rest : List ℕ)
        → length d % 8 ≡ 0
        → (more : List ℕ) × (minus_one (
              take
                (8 * ((length (ciphertext toy key d ++ rest) - 1) / 8))
                (ciphertext toy key d ++ rest))
            ≡ d ++ more)
    decrypts d rest whole =
        let size = 8 * (length d / 8 + 1) in
        let blocks = plus_one (filled size d) in
        let n = 8 * ((length (blocks ++ rest) - 1) / 8) in
        let (more, e) = plus_one-filled size d (omega arith) in
        let (r, e') = take-append_le n (plus_one d) (more ++ rest) (
          omega (
            arith,
            length-plus_one d,
            length-append blocks rest,
            length-plus_one (filled size d),
            length-filled size d,
          )) in
        (
          minus_one r,
          ap (λ b. minus_one (take n (b ++ rest))) e
              ∙ ap (λ b. minus_one (take n b)) (append_assoc (plus_one d) more rest)
              ∙ ap minus_one e'
              ∙ minus_one-append d r,
        )
