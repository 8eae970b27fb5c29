-- ===== src/Base/Lists.antt =====
-- Lists measured and indexed by native numbers, under the library's names.
use Prim.Native.Nat.{ℕ, zero, suc, ◌+◌, ◌≤◌}
use mathlib.Core.Path.{◌≡◌, refl, ap}
use mathlib.Core.Bool.{Bool, true, false, ◌&&◌}
use mathlib.Core.List.{List, [], ◌∷◌, ◌++◌}
use mathlib.Core.Option.{Option, none, some}
use native.Mathlib.Omega.{arith}
use process_manger_alpha.Base.Tests.{◌==◌, if◌then◌else◌}

module _ {ℓ} {A : Type ℓ} where
  abbrev pub length : List A → ℕ
  length [] = 0
  length (x ∷ xs) = suc (length xs)

  abbrev pub get_elem? : List A → ℕ → Option A
  get_elem? [] i = none
  get_elem? (x ∷ xs) zero = some x
  get_elem? (x ∷ xs) (suc i) = get_elem? xs i

  abbrev pub take : ℕ → List A → List A
  take zero xs = []
  take (suc n) [] = []
  take (suc n) (x ∷ xs) = x ∷ take n xs

  abbrev pub drop : ℕ → List A → List A
  drop zero xs = xs
  drop (suc n) [] = []
  drop (suc n) (x ∷ xs) = drop n xs

  abbrev pub replicate : ℕ → A → List A
  replicate zero a = []
  replicate (suc n) a = a ∷ replicate n a

  -- The items that pass a test, in order.
  abbrev pub keep : (A → Bool) → List A → List A
  keep p [] = []
  keep p (x ∷ xs) = if p x then x ∷ keep p xs else keep p xs

  -- An item put in front of position `i`; past the end it comes last.
  abbrev pub insert_at : ℕ → A → List A → List A
  insert_at zero a xs = a ∷ xs
  insert_at (suc i) a [] = a ∷ []
  insert_at (suc i) a (x ∷ xs) = x ∷ insert_at i a xs

  -- The item at position `i` changed by a function; past the end nothing changes.
  abbrev pub modify_at : ℕ → (A → A) → List A → List A
  modify_at i f [] = []
  modify_at zero f (x ∷ xs) = f x ∷ xs
  modify_at (suc i) f (x ∷ xs) = x ∷ modify_at i f xs

  abbrev pub remove_at : ℕ → List A → List A
  remove_at i [] = []
  remove_at zero (x ∷ xs) = xs
  remove_at (suc i) (x ∷ xs) = x ∷ remove_at i xs

  pub length-append : (xs ys : List A) → length (xs ++ ys) ≡ length xs + length ys
  length-append [] ys = omega arith
  length-append (x ∷ xs) ys = omega (arith, length-append xs ys)

  pub length-insert_at : (i : ℕ) (a : A) (xs : List A) → length (insert_at i a xs) ≡ length xs + 1
  length-insert_at zero a xs = omega arith
  length-insert_at (suc i) a [] = omega arith
  length-insert_at (suc i) a (x ∷ xs) = omega (arith, length-insert_at i a xs)

  pub length-replicate : (n : ℕ) (a : A) → length (replicate n a) ≡ n
  length-replicate zero a = refl
  length-replicate (suc n) a = ap suc (length-replicate n a)

  pub length-modify_at : (i : ℕ) (f : A → A) (xs : List A) → length (modify_at i f xs) ≡ length xs
  length-modify_at i f [] = refl
  length-modify_at zero f (x ∷ xs) = refl
  length-modify_at (suc i) f (x ∷ xs) = ap suc (length-modify_at i f xs)

  -- Where the position is that of the first item behind `xs`.
  pub insert_at-append_length :
      (a : A) (xs ys : List A) → insert_at (length xs) a (xs ++ ys) ≡ xs ++ a ∷ ys
  insert_at-append_length a [] ys = refl
  insert_at-append_length a (x ∷ xs) ys = ap (◌∷◌ x) (insert_at-append_length a xs ys)

  pub modify_at-append_length :
      (f : A → A) (xs : List A) (a : A) (ys : List A)
      → modify_at (length xs) f (xs ++ a ∷ ys) ≡ xs ++ f a ∷ ys
  modify_at-append_length f [] a ys = refl
  modify_at-append_length f (x ∷ xs) a ys = ap (◌∷◌ x) (modify_at-append_length f xs a ys)

  -- Past the end.
  pub insert_at_past :
      (i : ℕ) (a : A) (xs : List A) → length xs ≤ i → insert_at i a xs ≡ xs ++ a ∷ []
  insert_at_past zero a [] h = refl
  insert_at_past (suc i) a [] h = refl
  insert_at_past zero a (x ∷ xs) h = absurd (omega arith)
  insert_at_past (suc i) a (x ∷ xs) h = ap (◌∷◌ x) (insert_at_past i a xs (omega arith))

  pub modify_at_past : (i : ℕ) (f : A → A) (xs : List A) → length xs ≤ i → modify_at i f xs ≡ xs
  modify_at_past i f [] h = refl
  modify_at_past zero f (x ∷ xs) h = absurd (omega arith)
  modify_at_past (suc i) f (x ∷ xs) h = ap (◌∷◌ x) (modify_at_past i f xs (omega arith))

  -- Putting an item at the end.
  pub insert_at-length : (a : A) (xs : List A) → insert_at (length xs) a xs ≡ xs ++ a ∷ []
  insert_at-length a [] = refl
  insert_at-length a (x ∷ xs) = ap (◌∷◌ x) (insert_at-length a xs)

  -- Filling in the item that has just been put in.
  pub modify_at-insert_at :
      (i : ℕ) (f : A → A) (a : A) (xs : List A)
      → i ≤ length xs
      → modify_at i f (insert_at i a xs) ≡ insert_at i (f a) xs
  modify_at-insert_at zero f a xs h = refl
  modify_at-insert_at (suc i) f a [] h = absurd (omega arith)
  modify_at-insert_at (suc i) f a (x ∷ xs) h =
      ap (◌∷◌ x) (modify_at-insert_at i f a xs (omega arith))

  pub get_elem?-append_length :
      (xs : List A) (a : A) (ys : List A) → get_elem? (xs ++ a ∷ ys) (length xs) ≡ some a
  get_elem?-append_length [] a ys = refl
  get_elem?-append_length (x ∷ xs) a ys = get_elem?-append_length xs a ys

  pub remove_at-append_length :
      (xs : List A) (a : A) (ys : List A) → remove_at (length xs) (xs ++ a ∷ ys) ≡ xs ++ ys
  remove_at-append_length [] a ys = refl
  remove_at-append_length (x ∷ xs) a ys = ap (◌∷◌ x) (remove_at-append_length xs a ys)

  pub keep-append : (p : A → Bool) (xs ys : List A) → keep p (xs ++ ys) ≡ keep p xs ++ keep p ys
  keep-append p [] ys = refl
  keep-append p (x ∷ xs) ys = ground (arith, keep-append p xs ys)

-- Equality of texts and of byte strings.
abbrev pub list_eq : List ℕ → List ℕ → Bool
list_eq [] [] = true
list_eq (x ∷ xs) (y ∷ ys) = x == y && list_eq xs ys
list_eq _ _ = false

-- A predicate by recursion computes to tuples, which the tactics read and build.
abbrev pub All {ℓ κ} : {A : Type ℓ} → (A → Type κ) → List A → Type κ
All P [] = Unit
All P (x ∷ xs) = P x × All P xs

pub All-append {ℓ κ} :
    {A : Type ℓ} (P : A → Type κ) (xs ys : List A) → All P xs → All P ys → All P (xs ++ ys)
All-append P [] ys hx hy = hy
All-append P (x ∷ xs) ys hx hy = (hx.0, All-append P xs ys hx.1 hy)

pub All-split {ℓ κ} :
    {A : Type ℓ} (P : A → Type κ) (xs ys : List A) → All P (xs ++ ys) → All P xs × All P ys
All-split P [] ys h = (tt, h)
All-split P (x ∷ xs) ys (hx, h) = let (hxs, hys) = All-split P xs ys h in ((hx, hxs), hys)

pub All-zip {ℓ κ} :
    {A : Type ℓ} {P Q R : A → Type κ} (xs : List A)
    → ((x : A) → P x → Q x → R x)
    → All P xs
    → All Q xs
    → All R xs
All-zip [] f hp hq = tt
All-zip (x ∷ xs) f (p, hp) (q, hq) = (f x p q, All-zip xs f hp hq)

pub All-map {ℓ κ} :
    {A : Type ℓ} {P Q : A → Type κ} (xs : List A) → ((x : A) → P x → Q x) → All P xs → All Q xs
All-map [] f h = tt
All-map (x ∷ xs) f (p, h) = (f x p, All-map xs f h)

pub All-always {ℓ κ} : {A : Type ℓ} {P : A → Type κ} (xs : List A) → ((x : A) → P x) → All P xs
All-always [] f = tt
All-always (x ∷ xs) f = (f x, All-always xs f)

pub All-take {ℓ κ} :
    {A : Type ℓ} (P : A → Type κ) (k : ℕ) (xs : List A) → All P xs → All P (take k xs)
All-take P zero xs h = tt
All-take P (suc k) [] h = tt
All-take P (suc k) (x ∷ xs) (p, h) = (p, All-take P k xs h)
