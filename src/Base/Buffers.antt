-- ===== src/Base/Buffers.antt =====
-- Arrays of bytes that start as zeros, and the writes and reads of C's library functions on them.
use Prim.Native.Nat.{ℕ, zero, suc, ◌+◌, ◌≤◌, min}
use mathlib.Core.Path.{◌≡◌, refl, ap}
use mathlib.Core.Bool.{true, false}
use mathlib.Core.List.{List, [], ◌∷◌, ◌++◌}
use mathlib.Core.Option.{Option, none, some}
use native.Mathlib.Nat.{zero-add, suc-add}
use native.Mathlib.Omega.{arith}
use process_manger_alpha.Base.Tests.{◌==◌, leb, le→leb, if◌then◌else◌}
use process_manger_alpha.Base.Lists.{length, take, drop, replicate, All}

-- The bytes `bs` copied to the place `at`; a copy that leaves the array is undefined.
abbrev pub write_at : ℕ → List ℕ → List ℕ → Option (List ℕ)
write_at o bs buf =
    if leb (o + length bs) (length buf)
    then some (take o buf ++ bs ++ drop (o + length bs) buf)
    else none

-- The first `n` bytes; there must be as many.
abbrev pub read_bytes : ℕ → List ℕ → Option (List ℕ)
read_bytes n buf = if leb n (length buf) then some (take n buf) else none

-- An array of `n` bytes that holds `xs` and zeros behind it.
abbrev pub filled : ℕ → List ℕ → List ℕ
filled n [] = replicate n 0
filled zero (x ∷ xs) = []
filled (suc n) (x ∷ xs) = x ∷ filled n xs

abbrev pub NonZero : List ℕ → Type 0
NonZero xs = All (λ x. (x == 0) ≡ false) xs

pub length-filled : (n : ℕ) (xs : List ℕ) → length (filled n xs) ≡ n
length-filled zero [] = refl
length-filled (suc n) [] = ap suc (length-filled n [])
length-filled zero (x ∷ xs) = refl
length-filled (suc n) (x ∷ xs) = ap suc (length-filled n xs)

pub filled-length : (xs : List ℕ) → filled (length xs) xs ≡ xs
filled-length [] = refl
filled-length (x ∷ xs) = ap (◌∷◌ x) (filled-length xs)

pub take-filled : (m n : ℕ) (xs : List ℕ) → m ≤ n → take m (filled n xs) ≡ filled m xs
take-filled zero n [] h = refl
take-filled zero n (x ∷ xs) h = refl
take-filled (suc m) zero xs h = absurd (omega arith)
take-filled (suc m) (suc n) [] h = ap (◌∷◌ 0) (take-filled m n [] (omega arith))
take-filled (suc m) (suc n) (x ∷ xs) h = ap (◌∷◌ x) (take-filled m n xs (omega arith))

pub filled-zero : (n : ℕ) (xs : List ℕ) → filled n (xs ++ 0 ∷ []) ≡ filled n xs
filled-zero zero [] = refl
filled-zero (suc n) [] = refl
filled-zero zero (x ∷ xs) = refl
filled-zero (suc n) (x ∷ xs) = ap (◌∷◌ x) (filled-zero n xs)

pub filled-filled :
    (m n : ℕ) (xs : List ℕ) → length xs ≤ m → m ≤ n → filled n (filled m xs) ≡ filled n xs
filled-filled zero n [] h k = refl
filled-filled zero n (x ∷ xs) h k = absurd (omega arith)
filled-filled (suc m) zero xs h k = absurd (omega arith)
filled-filled (suc m) (suc n) [] h k = ap (◌∷◌ 0) (filled-filled m n [] (omega arith) (omega arith))
filled-filled (suc m) (suc n) (x ∷ xs) h k =
    ap (◌∷◌ x) (filled-filled m n xs (omega arith) (omega arith))

-- A text in an array of zeros takes the place of the first zeros.
pub write_at-filled :
    (n : ℕ) (a b : List ℕ)
    → length a + length b ≤ n
    → write_at (length a) b (filled n a) ≡ some (filled n (a ++ b))
write_at-filled n a b h =
    let fits : leb (length a + length b) (length (filled n a)) ≡ true =
      le→leb _ _ (omega (arith, length-filled n a)) in
    rw fits (ap some (pieces n a b h))
  where
    behind : (n : ℕ) (b : List ℕ) → length b ≤ n → b ++ drop (length b) (replicate n 0) ≡ filled n b
    behind n [] h = refl
    behind zero (x ∷ b) h = absurd (omega arith)
    behind (suc n) (x ∷ b) h = ap (◌∷◌ x) (behind n b (omega arith))

    pieces :
        (n : ℕ) (a b : List ℕ)
        → length a + length b ≤ n
        → take (length a) (filled n a) ++ b ++ drop (length a + length b) (filled n a)
          ≡ filled n (a ++ b)
    pieces n [] b h = rw (zero-add (length b)) (behind n b (omega arith))
    pieces zero (x ∷ a) b h = absurd (omega arith)
    pieces (suc n) (x ∷ a) b h =
        rw (suc-add (length a) (length b)) (ap (◌∷◌ x) (pieces n a b (omega arith)))

pub length-take : (n : ℕ) (xs : List ℕ) → n ≤ length xs → length (take n xs) ≡ n
length-take zero xs h = refl
length-take (suc n) [] h = absurd (omega arith)
length-take (suc n) (x ∷ xs) h = ap suc (length-take n xs (omega arith))

pub length-take-min : (n : ℕ) (xs : List ℕ) → length (take n xs) ≡ min n (length xs)
length-take-min zero xs = omega arith
length-take-min (suc n) [] = omega arith
length-take-min (suc n) (x ∷ xs) = omega (arith, length-take-min n xs)

pub take-append : (xs ys : List ℕ) → take (length xs) (xs ++ ys) ≡ xs
take-append [] ys = refl
take-append (x ∷ xs) ys = ap (◌∷◌ x) (take-append xs ys)

pub take-append_le :
    (n : ℕ) (xs ys : List ℕ) → length xs ≤ n → (rest : List ℕ) × (take n (xs ++ ys) ≡ xs ++ rest)
take-append_le n [] ys h = (take n ys, refl)
take-append_le zero (x ∷ xs) ys h = absurd (omega arith)
take-append_le (suc n) (x ∷ xs) ys h =
    let (rest, e) = take-append_le n xs ys (omega arith) in (rest, ap (◌∷◌ x) e)

-- What is received into an array of zeros.
pub take-replicate :
    (n m : ℕ) (xs : List ℕ) → length xs ≤ n → n ≤ m → take n (xs ++ replicate m 0) ≡ filled n xs
take-replicate zero m [] h k = refl
take-replicate zero m (x ∷ xs) h k = absurd (omega arith)
take-replicate (suc n) zero xs h k = absurd (omega arith)
take-replicate (suc n) (suc m) [] h k =
    ap (◌∷◌ 0) (take-replicate n m [] (omega arith) (omega arith))
take-replicate (suc n) (suc m) (x ∷ xs) h k =
    ap (◌∷◌ x) (take-replicate n (suc m) xs (omega arith) (omega arith))
