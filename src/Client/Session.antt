-- ===== src/Client/Session.antt =====
-- The client and the server together: a sample that is uploaded, and an update of the local file.
use process_manger_alpha.Base.{
  ℕ, zero, suc, ◌*◌, ◌<◌, ◌≡◌, refl, ap, ◌∙◌, true, Option, none, some, List, [], ◌∷◌, ◌++◌, arith,
  length, length-append, length-replicate, append_assoc, take, length-take, replicate, All, NonZero,
  filled, filled-zero, length-filled, take-filled, take-append_le, write_at, write_at-filled,
}
use process_manger_alpha.Text.{Text, codes, lower, hex_text}
use process_manger_alpha.Text.Hex.{IsByte, length-hex_text, hex_text-IsMark, IsMark-NonZero}
use process_manger_alpha.Text.RoundTrip.{cstring-filled_front, cstring-filled_any}
use process_manger_alpha.Crypto.{OpenSsl, key_bytes, md5_encrypt, ◌>>=◌}
use process_manger_alpha.Crypto.Des.{
  IsEcb, ciphertext, evp_encrypt_lem, evp_decrypt_lem, evp_decrypt_any,
}
use process_manger_alpha.Server.{Database, Server, round}
use process_manger_alpha.Server.Rounds.{joined, round-update}
use process_manger_alpha.Server.Library.{insert_statement, round-payload}
use process_manger_alpha.Client.{
  Client, mymsg, hex_of_md5, update_message, payload_message, upload, decrypt_reply, update,
}

abbrev pub latest {ℓ} : {A : Type ℓ} → List A → Option A
latest [] = none
latest (x ∷ xs) = some x

-- One message of the client goes to one round of the server; what the server sends last is what the
-- client receives.
unfoldable pub upload_session :
    (lib : OpenSsl) (m : Database)
    → List ℕ
    → List ℕ
    → Client × Server m
    → Option (Client × Server m)
upload_session lib m stack content (c, s) = do
  c' ← upload lib stack (some content) c
  message ← latest c'.sent
  s' ← round m message s
  some (c', s')

unfoldable pub update_session :
    (lib : OpenSsl) (m : Database) → List ℕ → Client × Server m → Option (Client × Server m)
update_session lib m stack (c, s) = do
  message ← update_message
  s' ← round m message s
  reply ← latest s'.sent
  c' ← update lib stack reply true c
  some (c', s')

hex_of_md5-filled :
    (n : ℕ) (bs : List ℕ)
    → NonZero bs
    → length bs < n
    → hex_of_md5 (filled n bs) ≡ some (hex_text lower bs)
unfolding hex_of_md5 hex_text
hex_of_md5-filled zero bs h l = absurd (omega arith)
hex_of_md5-filled (suc n) [] h l = refl
hex_of_md5-filled (suc n) (b ∷ bs) (hb, h) l =
    rw (hex_of_md5, hb, hex_of_md5-filled n bs h (omega arith)) refl

module _ (lib : OpenSsl) where
  open lib use {md5_init, md5_update, md5_final}

  abbrev pub digest : List ℕ → List ℕ
  digest content = md5_final (md5_update content md5_init)

  -- The plaintext and the ciphertext of a digest: its digits with zeros up to 40 bytes.
  abbrev pub plain_sample : List ℕ → List ℕ
  plain_sample bs = filled 40 (hex_text lower bs)

  abbrev pub sealed_sample : List ℕ → List ℕ → List ℕ
  sealed_sample stack bs = ciphertext lib (key_bytes stack) (plain_sample bs)

  -- An MD5 that is sent whole: 16 bytes, none of them zero.
  pub record IsSample (bs : List ℕ) : Type 0 where
    pub sixteen : length bs ≡ 16
    pub in_range : All IsByte bs
    pub non_zero : NonZero bs

  payload_message_lem :
      (stack content : List ℕ)
      → IsEcb lib (key_bytes stack)
      → IsSample (digest content)
      → payload_message lib stack content
        ≡ some (mymsg 1 (filled 196 (sealed_sample stack (digest content))))
  unfolding payload_message md5_encrypt
  payload_message_lem stack content ecb ok =
      let bs = digest content in
      let hex = hex_text lower bs in
      let digits : length hex ≡ 2 * length bs = length-hex_text lower bs ok.in_range in
      let sixteen = ok.sixteen in
      let buf = filled 200 hex in
      let written : write_at 0 (hex ++ 0 ∷ []) (filled 200 []) ≡ some buf =
        write_at-filled 200 [] (hex ++ 0 ∷ []) (omega (arith, length-append hex (0 ∷ [])))
        ∙ ap some (filled-zero 200 hex) in
      let sealed =
        evp_encrypt_lem lib stack buf 200 40 ecb (omega (arith, length-filled 200 hex))
          (omega arith) in
      rw
        (
          write_at-filled 40 [] bs (omega arith),
          ◌>>=◌,
          hex_of_md5-filled 40 bs ok.non_zero (omega arith),
          written,
          sealed,
          take-filled 40 200 hex (omega arith),
          take-filled 196 200 (sealed_sample stack bs) (omega arith),
        )
        refl

  -- A file whose MD5 has 16 bytes, none of them zero, and whose ciphertext has no zero byte: its upload
  -- reaches the server in one message, which stores the ciphertext of the digits, once.
  pub upload_session_lem :
      (m : Database) (stack content : List ℕ) (c : Client) (s : Server m)
      → IsEcb lib (key_bytes stack)
      → IsSample (digest content)
      → NonZero (sealed_sample stack (digest content))
      → (c' : Client) × (upload_session lib m stack content (c, s)
          ≡ some (
            c',
            record s {
              db = m.mysql_query (insert_statement (sealed_sample stack (digest content))) s.db;
            },
          ))
        × (c'.virus_file ≡ c.virus_file)
  unfolding upload_session upload
  upload_session_lem m stack content c s ecb ok nz =
      let sample = sealed_sample stack (digest content) in
      let size = ecb.padded (plain_sample (digest content)) in
      let small : length sample < 196 =
        omega (arith, length-filled 40 (hex_text lower (digest content))) in
      (
        record c { sent = mymsg 1 (filled 196 sample) ∷ c.sent; boxes = codes "上传成功！" ∷ c.boxes },
        rw (payload_message_lem stack content ecb ok, ◌>>=◌, round-payload m sample s nz small)
            refl,
        refl,
      )

  decrypt_reply_lem :
      (stack bs rest : List ℕ)
      → IsEcb lib (key_bytes stack)
      → IsSample bs
      → decrypt_reply lib stack (sealed_sample stack bs ++ rest) ≡ some (hex_text lower bs)
  unfolding decrypt_reply
  decrypt_reply_lem stack bs rest ecb ok =
      let hex = hex_text lower bs in
      let sealed = sealed_sample stack bs in
      let sixteen = ok.sixteen in
      let digits : length hex ≡ 2 * length bs = length-hex_text lower bs ok.in_range in
      let nz = IsMark-NonZero hex (hex_text-IsMark lower bs ok.in_range) in
      let size = ecb.padded (plain_sample bs) in
      let whole : length (plain_sample bs) ≡ 40 = length-filled 40 hex in
      let all = rest ++ replicate 200 0 in
      let recv_buf = take 200 ((sealed ++ rest) ++ replicate 200 0) in
      let full : length recv_buf ≡ 200 = length-take 200 ((sealed ++ rest) ++ replicate 200 0) (
        omega (
          arith,
          length-append (sealed ++ rest) (replicate 200 0),
          length-replicate {A = ℕ} 200 0,
        )) in
      let (r₁, e₁) = take-append_le 200 sealed all (omega arith) in
      let (r₂, e₂) = take-append_le 88 sealed r₁ (omega arith) in
      let starts : take 88 recv_buf ≡ sealed ++ r₂ =
        ap (λ xs. take 88 (take 200 xs)) (append_assoc sealed rest (replicate 200 0))
        ∙ ap (take 88) e₁
        ∙ e₂ in
      let (out_length, more, runs, _, _) =
        evp_decrypt_lem lib stack recv_buf (plain_sample bs) r₂ 100 88 10 ecb (omega arith) refl
          (omega arith) starts (omega arith) in
      rw (runs, ◌>>=◌) (cstring-filled_front 40 100 hex more nz (omega arith) (omega arith))

  -- An update when the library's texts, less than 1000 bytes together, begin with the ciphertext of
  -- a sample: the local file holds the digits of that first sample, and nothing of the others.
  pub update_session_lem :
      (m : Database) (stack bs rest : List ℕ) (c : Client) (s : Server m)
      {rs : List (List (Option Text))}
      → IsEcb lib (key_bytes stack)
      → IsSample bs
      → m.selected s.db ≡ some rs
      → joined rs ≡ sealed_sample stack bs ++ rest
      → length (joined rs) < 1000
      → (c' : Client) × (update_session lib m stack (c, s)
          ≡ some (c', record s { sent = joined rs ∷ s.sent }))
        × (c'.virus_file ≡ some (hex_text lower bs ++ codes "\n"))
  unfolding update_session update
  update_session_lem m stack bs rest c s {rs} ecb ok found first small = (
    record c {
      sent = mymsg 0 (filled 200 (codes "0")) ∷ c.sent;
      virus_file = some (hex_text lower bs ++ codes "\n");
      boxes = codes "更新成功，本地病毒库已经是最新的了" ∷ codes "解密中..." ∷ c.boxes;
    },
    rw
        (
          (round-update m s (filled 200 (codes "0")) found small).1,
          ◌>>=◌,
          first,
          decrypt_reply_lem stack bs rest ecb ok,
        )
        refl,
    refl,
  )

  decrypt_reply_any :
      (stack received : List ℕ)
      → IsEcb lib (key_bytes stack)
      → (text : Text) × (decrypt_reply lib stack received ≡ some text)
  unfolding decrypt_reply
  decrypt_reply_any stack received ecb =
      let recv_buf = take 200 (received ++ replicate 200 0) in
      let full : length recv_buf ≡ 200 =
        length-take 200 (received ++ replicate 200 0) (
          omega
            (arith, length-append received (replicate 200 0), length-replicate {A = ℕ} 200 0)) in
      let (bytes, runs, small) =
        evp_decrypt_any lib stack recv_buf 100 88 10 ecb (omega arith) refl (omega arith) in
      let (text, e) = cstring-filled_any 100 bytes (omega arith) in (text, rw (runs, ◌>>=◌) e)

  -- Whatever the client receives for an update, nothing included, as when there is no server: the local
  -- file, if it can be opened, is replaced by a text and a line break, and the success is shown.
  pub update-replaces :
      (stack received : List ℕ) (c : Client)
      → IsEcb lib (key_bytes stack)
      → (c' : Client) × (text : Text) × (update lib stack received true c ≡ some c')
        × (c'.virus_file ≡ some (text ++ codes "\n"))
        × (latest c'.boxes ≡ some (codes "更新成功，本地病毒库已经是最新的了"))
  unfolding update
  update-replaces stack received c ecb =
      let (text, e) = decrypt_reply_any stack received ecb in
      (
        record c {
          sent = mymsg 0 (filled 200 (codes "0")) ∷ c.sent;
          virus_file = some (text ++ codes "\n");
          boxes = codes "更新成功，本地病毒库已经是最新的了" ∷ codes "解密中..." ∷ c.boxes;
        },
        text,
        rw (e, ◌>>=◌) refl,
        refl,
        refl,
      )
