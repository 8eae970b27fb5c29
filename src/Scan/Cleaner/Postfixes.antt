-- ===== src/Scan/Cleaner/Postfixes.antt =====
-- The button that reads the postfixes undoes the way they are written: each ended by a backslash.
use process_manger_alpha.Base.{
  ℕ, zero, suc, ◌≤◌, false, ◌==◌, none, some, List, [], ◌∷◌, ◌++◌, ◌≡◌, refl, ap, ◌∙◌, arith,
  length, take, drop, length-append, append_assoc, append-nil, All,
}
use process_manger_alpha.Text.{Text}
use process_manger_alpha.ListView.{ListView}
use process_manger_alpha.Scan.Cleaner.{
  find_backslash, read_rounds, Cleaner, read_postfixes, choose_folder,
}

-- A text without a backslash.
abbrev pub IsPlain : Text → Type 0
IsPlain s = All (λ c. c == b'\\' ≡ false) s

-- The postfixes as the dialog's text has them.
abbrev pub written : List Text → Text
written [] = []
written (p ∷ ps) = p ++ b'\\' ∷ written ps

find_backslash-plain : (s : Text) → IsPlain s → find_backslash s ≡ none
find_backslash-plain [] h = refl
find_backslash-plain (c ∷ s) (other, h) = rw (other, find_backslash-plain s h) refl

find_backslash-append : (p s : Text) → IsPlain p → find_backslash (p ++ b'\\' ∷ s) ≡ some (length p)
find_backslash-append [] s h = refl
find_backslash-append (c ∷ p) s (other, h) = rw (other, find_backslash-append p s h) refl

take-append : (p s : Text) → take (length p) (p ++ s) ≡ p
take-append [] s = refl
take-append (c ∷ p) s = ap (◌∷◌ c) (take-append p s)

drop-append : (p s : Text) (c : ℕ) → drop (suc (length p)) (p ++ c ∷ s) ≡ s
drop-append [] s c = refl
drop-append (x ∷ p) s c = drop-append p s c

read_rounds-append :
    (fuel : ℕ) (found : List Text) (p s : Text)
    → IsPlain p
    → read_rounds (suc fuel) found (p ++ b'\\' ∷ s) ≡ read_rounds fuel (found ++ p ∷ []) s
unfolding read_rounds
read_rounds-append fuel found p s h =
    rw (find_backslash-append p s h, read_rounds, take-append p (b'\\' ∷ s), drop-append p s b'\\')
      refl

read_rounds-written :
    (fuel : ℕ) (found ps : List Text) (rest : Text)
    → All IsPlain ps
    → IsPlain rest
    → length ps ≤ fuel
    → read_rounds fuel found (written ps ++ rest) ≡ (found ++ ps, rest)
unfolding read_rounds
read_rounds-written zero found [] rest h r f = rw append-nil refl
read_rounds-written zero found (p ∷ ps) rest h r f = absurd (omega arith)
read_rounds-written (suc fuel) found [] rest h r f =
    rw (find_backslash-plain rest r, append-nil) refl
read_rounds-written (suc fuel) found (p ∷ ps) rest (plain, h) r f =
    ap (read_rounds (suc fuel) found) (append_assoc p (b'\\' ∷ written ps) rest)
    ∙ read_rounds-append fuel found p (written ps ++ rest) plain
    ∙ read_rounds-written fuel (found ++ p ∷ []) ps rest h r (omega arith)
    ∙ rw (append_assoc found (p ∷ []) ps) refl

length-written : (ps : List Text) (rest : Text) → length ps ≤ length (written ps ++ rest)
length-written [] rest = omega arith
length-written (p ∷ ps) rest = omega (
  arith,
  length-append (p ++ b'\\' ∷ written ps) rest,
  length-append p (b'\\' ∷ written ps),
  length-append (written ps) rest,
  length-written ps rest,
)

-- When the box holds postfixes that are each ended by a backslash, and then a text without one, the
-- button reads exactly these postfixes, whatever it had read before, and leaves the text behind the
-- last backslash in `strPostfix`: a last postfix without a backslash is not read.
pub read_postfixes-written :
    (v : ListView) (d : Cleaner v) (ps : List Text) (rest : Text)
    → d.postfix_box ≡ written ps ++ rest
    → All IsPlain ps
    → IsPlain rest
    → ((read_postfixes v d).postfixes ≡ ps) × ((read_postfixes v d).postfix ≡ rest)
unfolding read_postfixes
read_postfixes-written v d ps rest box h r =
    let both =
      read_rounds-written (length (written ps ++ rest)) [] ps rest h r (length-written ps rest) in
    rw box (ap (λ p. p.0) both, ap (λ p. p.1) both)

-- Once postfixes are read like this, choosing a folder shows it, and shows the text behind the last
-- backslash in place of the postfixes; those that were read are kept, and the scan is of the folder.
pub choose_folder-read_postfixes :
    (v : ListView) (d : Cleaner v) (ps : List Text) (rest path : Text)
    → d.postfix_box ≡ written ps ++ rest
    → All IsPlain ps
    → IsPlain rest
    → let d' = choose_folder v path (read_postfixes v d) in
      (d'.postfix_box ≡ rest) × (d'.postfixes ≡ ps) × (d'.proj_box ≡ path) × (d'.proj_path ≡ path)
unfolding choose_folder
choose_folder-read_postfixes v d ps rest path box h r =
    let (read, left) = read_postfixes-written v d ps rest box h r in (left, read, refl, refl)
