-- ===== src/Crypto.antt =====
-- The wrappers of OpenSSL in ProcessMangerAlpha/EnDeCrypt.cpp. OpenSSL is a parameter: a context of a
-- cipher, and one of MD5, with what the calls make of it and the bytes that they write.
pub mod Des
pub mod Rsa
use process_manger_alpha.Base.{
  ℕ, ◌+◌, Option, none, some, List, [], ◌∷◌, ◌++◌, length, replicate, write_at, read_bytes,
}
use process_manger_alpha.Text.{codes}

infixl 5 ◌>>=◌
abbrev pub ◌>>=◌ : {A B : Type 0} → Option A → (A → Option B) → Option B
none >>= f = none
some a >>= f = f a

pub record OpenSsl : Type 1 where
  -- EVP_CIPHER_CTX, with EVP_CipherInit_ex on EVP_des_ede3_ecb(): the key and the direction, 1 for
  -- encryption. A call of Update or Final gives the bytes that it writes.
  pub Ctx : Type 0
  pub ctx_new : Ctx
  pub set_padding : ℕ → Ctx → Ctx
  pub cipher_init : List ℕ → ℕ → Ctx → Ctx
  pub cipher_update : List ℕ → Ctx → List ℕ × Ctx
  pub cipher_final : Ctx → List ℕ
  -- MD5_CTX
  pub Md5 : Type 0
  pub md5_init : Md5
  pub md5_update : List ℕ → Md5 → Md5
  pub md5_final : Md5 → List ℕ

-- `unsigned char key[16] = "15pb"`. The cipher takes a key of 24 bytes: it reads the 8 bytes behind
-- the array as well, which are whatever `stack` says.
abbrev pub key_bytes : List ℕ → List ℕ
key_bytes stack = codes "15pb" ++ replicate 12 0 ++ stack

module _ (lib : OpenSsl) where
  open lib use {
    ctx_new, set_padding, cipher_init, cipher_update, cipher_final, md5_init, md5_update, md5_final,
  }

  -- What the two functions below do alike: the length of what is written, and the target.
  unfoldable pub run_cipher : ℕ → List ℕ → List ℕ → List ℕ → ℕ → Option (ℕ × List ℕ)
  run_cipher enc stack source_string des_string len = do
    source ← read_bytes len source_string
    let (out, ctx) =
        cipher_update source (cipher_init (key_bytes stack) enc (set_padding 1 ctx_new))
    des ← write_at 0 out des_string
    let last = cipher_final ctx
    des' ← write_at (length out) last des
    some (length out + length last, des')

  unfoldable pub evp_encrypt : List ℕ → List ℕ → List ℕ → ℕ → Option (ℕ × List ℕ)
  unfolding run_cipher
  evp_encrypt stack source_string des_string len = run_cipher 1 stack source_string des_string len

  unfoldable pub evp_decrypt : List ℕ → List ℕ → List ℕ → ℕ → Option (ℕ × List ℕ)
  unfolding run_cipher
  evp_decrypt stack source_string des_string len = do
    r ← run_cipher 0 stack source_string des_string len
    des ← write_at r.0 (0 ∷ []) r.1
    some (r.0, des)

  -- The digest is written to the front of the array.
  unfoldable pub md5_encrypt : List ℕ → List ℕ → Option (List ℕ)
  md5_encrypt data_bytes md5 = write_at 0 (md5_final (md5_update data_bytes md5_init)) md5
