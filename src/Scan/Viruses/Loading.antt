-- ===== src/Scan/Viruses/Loading.antt =====
-- How the scans read TheVirus.txt when they open (OnInitDialog of CByPathKillingDialog.cpp, and alike
-- in CAllKillingDialog.cpp): `while (!feof(pFile)) { fscanf_s(pFile, "%S\n", localMD5, 100); ... }`.
use process_manger_alpha.Base.{
  ℕ, zero, suc, ◌<◌, ◌≤◌, ◌≡◌, refl, ap, ◌∙◌, true, Option, none, some, List, [], ◌∷◌, ◌++◌, arith,
  ltb, lt→ltb, if◌then◌else◌, length, length-append, append_assoc, All,
}
use process_manger_alpha.Text.{Text, codes, is_space, skip_spaces}
use process_manger_alpha.Text.Hex.{IsMark}
use process_manger_alpha.Scan.Viruses.{load_database}

-- What `%S` reads, from a character that is no blank, and what is left behind it.
unfoldable pub word_of : Text → Text
word_of [] = []
word_of (c ∷ s) = if is_space c then [] else c ∷ word_of s

unfoldable pub behind_word : Text → Text
behind_word [] = []
behind_word (c ∷ s) = if is_space c then c ∷ s else behind_word s

-- The entry of a word, in front of those of the rounds that follow if there is anything left.
unfoldable pub add_entry : Text → Text → Option (List Text) → Option (List Text)
add_entry word [] later = some (word ∷ [])
add_entry word (c ∷ s) none = none
add_entry word (c ∷ s) (some entries) = some (word ∷ entries)

-- The loop, with what `localMD5` holds. A read that finds the end of the file leaves `localMD5` as
-- it is, and its entry is added all the same. A word that does not fit into `localMD5` is left out.
unfoldable pub read_entries : ℕ → Text → Text → Option (List Text)
unfolding word_of behind_word add_entry
read_entries zero local_md5 file = none
read_entries (suc fuel) local_md5 file = elim (skip_spaces file) [
  | [] ↦ some (local_md5 ∷ [])
  | c ∷ s ↦
      let word = word_of (c ∷ s) in
      let left = skip_spaces (behind_word (c ∷ s)) in
      let more = add_entry word left (read_entries fuel word left) in
      if ltb (length word) 100 then more else none
]

-- With no file, `feof` is called on a null pointer.
unfoldable pub load_virus_file : Option Text → List Text → Option (List Text)
unfolding read_entries
load_virus_file none known = none
load_virus_file (some file) known = elim (read_entries (suc (length file)) [] file) [
  | none ↦ none
  | some entries ↦ some (load_database entries known)
]

-- A file with one entry in each line.
abbrev pub lines : List Text → Text
lines [] = []
lines (e ∷ es) = (e ++ codes "\n") ++ lines es

abbrev pub IsEntry : Text → Type 0
IsEntry e = (0 < length e) × (length e < 100) × All IsMark e

newline_is_space : is_space 10 ≡ true
unfolding is_space
newline_is_space = refl

word_of-append : (e rest : Text) → All IsMark e → word_of (e ++ 10 ∷ rest) ≡ e
unfolding word_of IsMark
word_of-append [] rest h = rw newline_is_space refl
word_of-append (c ∷ e) rest (hc, h) = rw (word_of, hc.1) (ap (◌∷◌ c) (word_of-append e rest h))

behind_word-append : (e rest : Text) → All IsMark e → behind_word (e ++ 10 ∷ rest) ≡ 10 ∷ rest
unfolding behind_word IsMark
behind_word-append [] rest h = rw newline_is_space refl
behind_word-append (c ∷ e) rest (hc, h) = rw (behind_word, hc.1) (behind_word-append e rest h)

skip_spaces-lines : (es : List Text) → All IsEntry es → skip_spaces (lines es) ≡ lines es
unfolding skip_spaces IsMark
skip_spaces-lines [] h = refl
skip_spaces-lines ([] ∷ es) ((full, short, marks), h) = absurd (omega arith)
skip_spaces-lines ((c ∷ e) ∷ es) ((full, short, (hc, _)), h) = rw (skip_spaces, hc.1) refl

read_entries-word :
    (fuel : ℕ) (local_md5 file w left s : Text) (c : ℕ)
    → skip_spaces file ≡ c ∷ s
    → word_of (c ∷ s) ≡ w
    → skip_spaces (behind_word (c ∷ s)) ≡ left
    → length w < 100
    → read_entries (suc fuel) local_md5 file ≡ add_entry w left (read_entries fuel w left)
unfolding read_entries
read_entries-word fuel local_md5 file w left s c first word behind short =
    rw (read_entries, first) (rw (word, behind, lt→ltb (length w) 100 short) refl)

lines-word : (e rest : Text) → (e ++ 10 ∷ []) ++ rest ≡ e ++ 10 ∷ rest
lines-word e rest = append_assoc e (10 ∷ []) rest

-- Where the loop stands behind a line.
behind_line :
    (e : Text) (es : List Text)
    → All IsMark e
    → All IsEntry es
    → skip_spaces (behind_word (e ++ 10 ∷ lines es)) ≡ lines es
unfolding skip_spaces
behind_line e es marks h =
    rw (behind_word-append e (lines es) marks, newline_is_space) (skip_spaces-lines es h)

add_entry-lines :
    (e : Text) (es : List Text) (later : Option (List Text))
    → All IsEntry es
    → ((e' : Text) (es' : List Text) → es ≡ e' ∷ es' → later ≡ some (e' ∷ es'))
    → add_entry e (lines es) later ≡ some (e ∷ es)
unfolding add_entry
add_entry-lines e [] later h rest = refl
add_entry-lines e ([] ∷ es) later ((full, _, _), h) rest = absurd (omega arith)
add_entry-lines e ((c ∷ e') ∷ es) later h rest = rw (rest (c ∷ e') es refl) refl

read_entries-lines :
    (fuel : ℕ) (local_md5 e : Text) (es : List Text)
    → length es < fuel
    → All IsEntry (e ∷ es)
    → read_entries fuel local_md5 (lines (e ∷ es)) ≡ some (e ∷ es)
unfolding add_entry
read_entries-lines zero local_md5 e es f h = absurd (omega arith)
read_entries-lines (suc fuel) local_md5 [] es f ((full, short, marks), h) = absurd (omega arith)
read_entries-lines (suc fuel) local_md5 (c ∷ e) es f ((full, short, marks), h) =
    let rest = lines es in
    let first : skip_spaces (lines ((c ∷ e) ∷ es)) ≡ c ∷ (e ++ 10 ∷ rest) =
      skip_spaces-lines ((c ∷ e) ∷ es) ((full, short, marks), h) ∙ lines-word (c ∷ e) rest in
    read_entries-word fuel local_md5 (lines ((c ∷ e) ∷ es)) (c ∷ e) rest (e ++ 10 ∷ rest) c first
      (word_of-append (c ∷ e) rest marks) (behind_line (c ∷ e) es marks h) short
    ∙ add_entry-lines (c ∷ e) es (read_entries fuel (c ∷ e) (lines es)) h
        (λ e' es' same. rw same (read_entries-lines fuel (c ∷ e) e' es' (more same) (rw same at h)))
  where
    more : {e' : Text} {es' : List Text} → es ≡ e' ∷ es' → length es' < fuel
    more same = omega (arith, ap length same)

length-lines : (es : List Text) → length es ≤ length (lines es)
length-lines [] = omega arith
length-lines (e ∷ es) = omega (
  arith,
  length-lines es,
  length-append (e ++ codes "\n") (lines es),
  length-append e (codes "\n"),
)

-- A file with an entry in each line, each of 1 to 99 characters that are neither blanks nor zero
-- bytes, and with a line at least: it is read as those entries, in order, which go behind the known
-- ones.
pub load_virus_file-lines :
    (e : Text) (es known : List Text)
    → All IsEntry (e ∷ es)
    → load_virus_file (some (lines (e ∷ es))) known ≡ some (known ++ e ∷ es)
unfolding load_virus_file
load_virus_file-lines e es known h =
    rw
      (
        load_virus_file,
        read_entries-lines (suc (length (lines (e ∷ es)))) [] e es
            (omega (arith, length-lines (e ∷ es))) h,
      )
      refl

-- An empty file is read as one entry, which is empty.
load_virus_file_empty :
    (known : List Text) → load_virus_file (some []) known ≡ some (known ++ [] ∷ [])
unfolding load_virus_file read_entries skip_spaces
load_virus_file_empty known = refl
