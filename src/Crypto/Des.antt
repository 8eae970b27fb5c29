-- ===== src/Crypto/Des.antt =====
-- The cipher as OpenSSL documents it, and what the wrappers make of it.
use process_manger_alpha.Base.{
  ℕ, suc, ◌+◌, ◌*◌, ◌/◌, ◌%◌, ◌≤◌, ◌<◌, some, List, [], ◌∷◌, ◌++◌, ◌≡◌, refl, ap, ◌∙◌, sym, arith,
  length, length-append, append_assoc, take, length-take, le→leb, filled, filled-zero,
  write_at-filled,
}
use process_manger_alpha.Crypto.{OpenSsl, key_bytes, run_cipher, evp_encrypt, evp_decrypt, ◌>>=◌}

module _ (lib : OpenSsl) where
  open lib use {ctx_new, set_padding, cipher_init, cipher_update, cipher_final}

  -- The bytes that Update and Final write for some data, with padding on.
  abbrev pub update_out : ℕ → List ℕ → List ℕ → List ℕ
  update_out enc key data_bytes =
      (cipher_update data_bytes (cipher_init key enc (set_padding 1 ctx_new))).0

  abbrev pub final_out : ℕ → List ℕ → List ℕ → List ℕ
  final_out enc key data_bytes =
      cipher_final (cipher_update data_bytes (cipher_init key enc (set_padding 1 ctx_new))).1

  abbrev pub ciphertext : List ℕ → List ℕ → List ℕ
  ciphertext key data_bytes = update_out 1 key data_bytes ++ final_out 1 key data_bytes

  -- Triple DES in ECB mode: the data is padded to whole blocks of 8 bytes, each of which is encrypted
  -- alone. In decryption Update holds the last block back, and Final writes a part of it at most.
  pub record IsEcb (key : List ℕ) : Type 0 where
    pub padded : (d : List ℕ) → length (ciphertext key d) ≡ 8 * (length d / 8 + 1)
    pub decrypts :
        (d rest : List ℕ)
        → length d % 8 ≡ 0
        → (more : List ℕ) × (update_out 0 key (ciphertext key d ++ rest) ≡ d ++ more)
    pub held_back :
        (n : ℕ) (d : List ℕ) → length d ≡ 8 * suc n → length (update_out 0 key d) ≡ 8 * n
    pub last_block : (d : List ℕ) → length (final_out 0 key d) ≤ 8

  module _ (stack source : List ℕ) (enc n len : ℕ) where
    abbrev out_of : List ℕ
    out_of = update_out enc (key_bytes stack) (take len source)

    abbrev last_of : List ℕ
    last_of = final_out enc (key_bytes stack) (take len source)

    run_cipher_lem :
        len ≤ length source
        → length out_of + length last_of ≤ n
        → run_cipher lib enc stack source (filled n []) len
          ≡ some (length out_of + length last_of, filled n (out_of ++ last_of))
    unfolding run_cipher
    run_cipher_lem there fits =
        rw
          (
            le→leb len (length source) there,
            ◌>>=◌,
            write_at-filled n [] out_of (omega arith),
            write_at-filled n out_of last_of fits,
          )
          refl

  -- With room for the padded data, `evpEncrypt` puts the ciphertext of the first `length` bytes into
  -- an array of zeros, and returns its length.
  pub evp_encrypt_lem :
      (stack source : List ℕ) (n len : ℕ)
      → IsEcb (key_bytes stack)
      → len ≤ length source
      → 8 * (len / 8 + 1) ≤ n
      → evp_encrypt lib stack source (filled n []) len
        ≡ some (8 * (len / 8 + 1), filled n (ciphertext (key_bytes stack) (take len source)))
  unfolding evp_encrypt
  evp_encrypt_lem stack source n len ecb there room =
      let d = take len source in
      let size : length (update_out 1 (key_bytes stack) d)
            + length (final_out 1 (key_bytes stack) d)
          ≡ 8 * (len / 8 + 1) =
        sym (length-append (update_out 1 (key_bytes stack) d) _)
        ∙ ecb.padded d
        ∙ ap (λ l. 8 * (l / 8 + 1)) (length-take len source there) in
      run_cipher_lem stack source 1 n len there (omega (arith, size))
      ∙ ap (λ l. some (l, filled n (ciphertext (key_bytes stack) d))) size

  -- `evpDecrypt` of whole blocks that begin with the ciphertext of whole blocks, into an array of
  -- zeros that has a byte more than there are: the array then begins with the plaintext, and what is
  -- returned is no more than the length of the input.
  pub evp_decrypt_lem :
      (stack source d rest : List ℕ) (n len k : ℕ)
      → IsEcb (key_bytes stack)
      → len ≤ length source
      → len ≡ 8 * suc k
      → len < n
      → take len source ≡ ciphertext (key_bytes stack) d ++ rest
      → length d % 8 ≡ 0
      → (out_length : ℕ) × (more : List ℕ) × (evp_decrypt lib stack source (filled n []) len
          ≡ some (out_length, filled n (d ++ more)))
        × (out_length ≡ length (d ++ more))
        × (out_length ≤ len)
  unfolding evp_decrypt
  evp_decrypt_lem stack source d rest n len k ecb there blocks room starts whole =
      let key = key_bytes stack in
      let src = take len source in
      let out = update_out 0 key src in
      let last = final_out 0 key src in
      let (more, e) = ecb.decrypts d rest whole in
      let out_d : out ≡ d ++ more = rw starts e in
      let released : length out ≡ 8 * k =
        ecb.held_back k src (length-take len source there ∙ blocks) in
      let small = ecb.last_block src in
      let all : out ++ last ≡ d ++ (more ++ last) = rw out_d (append_assoc d more last) in
      let size : length (out ++ last) ≡ length out + length last = length-append out last in
      (
        length out + length last,
        more ++ last,
        rw (run_cipher_lem stack source 0 n len there (omega arith), ◌>>=◌)
            (rw (sym size) (
              rw (write_at-filled n (out ++ last) (0 ∷ []) (omega (arith, size)), ◌>>=◌)
                (ap (λ a. some (length (out ++ last), a))
                  (filled-zero n (out ++ last) ∙ ap (filled n) all)))),
        sym size ∙ ap length all,
        omega arith,
      )

  -- `evpDecrypt` of any whole blocks, into an array of zeros that has a byte more than there are:
  -- some bytes, no more than there are, with zeros behind them.
  pub evp_decrypt_any :
      (stack source : List ℕ) (n len k : ℕ)
      → IsEcb (key_bytes stack)
      → len ≤ length source
      → len ≡ 8 * suc k
      → len < n
      → (text : List ℕ) × (evp_decrypt lib stack source (filled n []) len
          ≡ some (length text, filled n text))
        × (length text ≤ len)
  unfolding evp_decrypt
  evp_decrypt_any stack source n len k ecb there blocks room =
      let key = key_bytes stack in
      let src = take len source in
      let out = update_out 0 key src in
      let last = final_out 0 key src in
      let released : length out ≡ 8 * k =
        ecb.held_back k src (length-take len source there ∙ blocks) in
      let small = ecb.last_block src in
      let size : length (out ++ last) ≡ length out + length last = length-append out last in
      (
        out ++ last,
        rw (run_cipher_lem stack source 0 n len there (omega arith), ◌>>=◌)
            (rw (sym size) (
              rw (write_at-filled n (out ++ last) (0 ∷ []) (omega (arith, size)), ◌>>=◌)
                (ap (λ a. some (length (out ++ last), a)) (filled-zero n (out ++ last))))),
        omega (arith, size),
      )
