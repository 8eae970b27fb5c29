-- ===== src/Client/Detection.antt =====
-- From an upload to a scan: the client, the server and the two scans together.
use mathlib.Core.List.Permᴰ
use process_manger_alpha.Base.{
  ℕ, ◌<◌, ◌^◌, ◌≡◌, refl, sym, ap, ◌∙◌, Option, some, List, [], ◌∷◌, ◌++◌, arith, leb, inl, inr,
  Bool-cases, length, take, replicate, take-append, NonZero, insert_at, append-nil,
}
use process_manger_alpha.Text.{Text, Case, codes, lower, upper, hex_text}
use process_manger_alpha.Text.Hex.{
  HasLetter, length-hex_text, hex_text-IsMark, list_eq-hex_text, list_eq_refl,
}
use process_manger_alpha.ListView.{ListView, row_of}
use process_manger_alpha.Scan.{File, join_path}
use process_manger_alpha.Scan.Viruses.{
  digest_text, check_by_path, check_all, list_all, Shared, Disk,
}
use process_manger_alpha.Scan.Viruses.ByPath.{check_by_path_shown}
use process_manger_alpha.Scan.Viruses.Loading.{load_virus_file, load_virus_file-lines}
use process_manger_alpha.Crypto.{OpenSsl, key_bytes, ◌>>=◌}
use process_manger_alpha.Crypto.Des.{IsEcb}
use process_manger_alpha.Server.{Database, Server}
use process_manger_alpha.Server.Rounds.{joined}
use process_manger_alpha.Server.Library.{IsPlain, Inserts, insert_statement, table_of, one_order}
use process_manger_alpha.Client.{Client}
use process_manger_alpha.Client.Session.{
  upload_session, update_session, upload_session_lem, update_session_lem, digest, sealed_sample,
  IsSample,
}

-- A file is uploaded, and the local list is updated. Behind the key of the encryption lies `stack`,
-- and behind that of the decryption `stack'`.
unfoldable pub upload_and_update :
    (lib : OpenSsl) (m : Database)
    → List ℕ
    → List ℕ
    → List ℕ
    → Client × Server m
    → Option (Client × Server m)
unfolding upload_session update_session
upload_and_update lib m stack stack' content s = do
  s' ← upload_session lib m stack content s
  update_session lib m stack' s'

module _ (lib : OpenSsl) (m : Database) (stack content : List ℕ) where
  abbrev text_of : Text
  text_of = hex_text lower (digest lib content)

  -- Where the eight bytes behind the key are the same at the encryption and at the decryption, the
  -- cipher with this key works as documented, and MySQL inserts a row for the statement: a library that
  -- is empty, and a file whose MD5 is sent whole and whose ciphertext goes through the statement as it
  -- is. After its upload and an update, the local file is one line with its MD5, and the table has the
  -- ciphertext alone.
  pub upload_and_update_lem :
      (stack' : List ℕ) (c : Client) (s : Server m)
      → stack' ≡ stack
      → IsEcb lib (key_bytes stack)
      → Inserts m
      → IsSample lib (digest lib content)
      → NonZero (sealed_sample lib stack (digest lib content))
      → IsPlain (sealed_sample lib stack (digest lib content))
      → m.selected s.db ≡ some []
      → (c' : Client) × (s' : Server m) × (upload_and_update lib m stack stack' content (c, s)
          ≡ some (c', s'))
        × (c'.virus_file ≡ some (text_of ++ codes "\n"))
        × (m.selected s'.db
            ≡ some ((some (sealed_sample lib stack (digest lib content)) ∷ []) ∷ []))
  unfolding upload_and_update
  upload_and_update_lem stack' c s same ecb ins ok nz plain empty =
      let sample = sealed_sample lib stack (digest lib content) in
      let (c₁, uploads, _) = upload_session_lem lib m stack content c s ecb ok nz in
      let s₁ = record s { db = m.mysql_query (insert_statement sample) s.db } in
      let (library, rows, order) = ins.inserted sample s.db [] (nz, plain) empty in
      let only : library ≡ sample ∷ [] = one_order sample (Permᴰ.symm order) refl in
      let rows₁ : m.selected s₁.db ≡ some ((some sample ∷ []) ∷ []) =
        rows ∙ ap (λ l. some (table_of l)) only in
      let one : joined ((some sample ∷ []) ∷ []) ≡ sample ++ [] = append-nil (sample ++ []) in
      let (c₂, updates, file) =
        update_session_lem lib m stack (digest lib content) [] c₁ s₁ ecb ok rows₁ one
          (omega (arith, ap length one, ap length (append-nil sample), plain.1)) in
      (
        c₂,
        record s₁ { sent = joined ((some sample ∷ []) ∷ []) ∷ s.sent },
        rw (uploads, ◌>>=◌) (rw same updates),
        file,
        rows₁,
      )

  digest_text-hex_text :
      (k : Case)
      → IsSample lib (digest lib content)
      → digest_text k (digest lib content) ≡ hex_text k (digest lib content)
  unfolding digest_text
  digest_text-hex_text k ok = ap (hex_text k) (
      ap (λ n. take n (digest lib content ++ replicate 100 0)) (sym ok.sixteen)
      ∙ take-append (digest lib content) (replicate 100 0))

  module _ (v : ListView) where
    open v use {Ctrl, rows}

    loads :
        IsSample lib (digest lib content)
        → load_virus_file (some (text_of ++ codes "\n")) [] ≡ some (text_of ∷ [])
    loads ok =
        let bs = digest lib content in
        let digits = length-hex_text lower bs ok.in_range in
        let sixteen = ok.sixteen in
        let h =
          load_virus_file-lines text_of [] []
            ((omega arith, omega arith, hex_text-IsMark lower bs ok.in_range), tt) in
        rw (append-nil (text_of ++ codes "\n")) at h

    -- The local file as an upload and an update leave it, read by the scan of a folder: for a file of
    -- less than 2 GB with the uploaded content, whose MD5 has 16 bytes, none of them zero, the scan
    -- puts a row with its path and MD5 at the top of the list.
    pub check_by_path_uploaded :
        (path : Text) (f : File) (i : ℕ) (c : Ctrl) (boxes : List Text)
        → IsSample lib (digest lib content)
        → f.content ≡ content
        → f.get_file_size < 2 ^ 31
        → (known : List Text) × (load_virus_file (some (text_of ++ codes "\n")) [] ≡ some known)
          × (rows (check_by_path v (digest lib) known path f i (c, boxes)).1.0
              ≡ insert_at 0 (row_of (join_path path f.name ∷ text_of ∷ [])) (rows c))
    check_by_path_uploaded path f i c boxes ok same small =
        let lower_text : digest_text lower (digest lib f.content) ≡ text_of =
          rw same (digest_text-hex_text lower ok) in
        let shown =
          check_by_path_shown v (digest lib) [] [] text_of path f i c boxes small tt
            (rw lower_text (list_eq_refl text_of)) tt (omega arith) in
        (
          text_of ∷ [],
          loads ok,
          shown
              ∙ ap (λ t. insert_at 0 (row_of (join_path path f.name ∷ t ∷ [])) (rows c)) lower_text,
        )

    -- The local file as an upload and an update leave it, read by the scan of the disks, when a digit
    -- of the MD5 is a letter: for a file with the uploaded content the scan changes nothing, since it
    -- writes the digits in upper case.
    pub check_all_uploaded :
        (k : Disk) (path : Text) (f : File) (i : ℕ) (s : Shared v (digest lib)) (boxes : List Text)
        → IsSample lib (digest lib content)
        → f.content ≡ content
        → HasLetter (digest lib content)
        → (known : List Text) × (load_virus_file (some (text_of ++ codes "\n")) [] ≡ some known)
          × (check_all v (digest lib) k known path f i (s, boxes) ≡ (i, (s, boxes)))
    unfolding check_all list_all
    check_all_uploaded k path f i s boxes ok same letter =
        let bs = digest lib content in
        let upper_text : digest_text upper (digest lib f.content) ≡ hex_text upper bs =
          rw same (digest_text-hex_text upper ok) in
        let other = list_eq-hex_text bs ok.in_range letter in
        (
          text_of ∷ [],
          loads ok,
          elim (Bool-cases (leb (2 ^ 31) f.get_file_size)) [
            | inl large ↦ rw large refl
            | inr large ↦ rw (large, upper_text, list_all, other) refl
          ],
        )
