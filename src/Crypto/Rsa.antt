-- ===== src/Crypto/Rsa.antt =====
-- The key files and the RSA wrappers of EnDeCrypt.cpp, which the dialogs do not call. OpenSSL's keys
-- and their PEM texts are parameters; whether a file opens is an argument.
use process_manger_alpha.Base.{
  ℕ, Bool, if◌then◌else◌, Option, none, some, List, ◌∷◌, [], ◌++◌, take, write_at, read_bytes,
}
use process_manger_alpha.Text.{Text, cstring}
use process_manger_alpha.Crypto.{◌>>=◌}

pub record RsaLib : Type 1 where
  pub Rsa : Type 0
  pub generate_key : ℕ → Rsa
  pub size : Rsa → ℕ
  -- PEM_write_bio_RSAPrivateKey and PEM_write_bio_RSAPublicKey, and the readers of files
  pub private_pem : Rsa → Text
  pub public_pem : Rsa → Text
  pub read_private : Text → Option Rsa
  pub read_public : Text → Option Rsa
  -- RSA_public_encrypt and RSA_private_decrypt with PKCS1 padding: the bytes that they write
  pub public_encrypt : List ℕ → Rsa → List ℕ
  pub private_decrypt : List ℕ → Rsa → List ℕ

-- The files PRI_KEY and PUB_KEY, if they are there.
pub record KeyFiles : Type 0 where
  pub private_file : Option Text
  pub public_file : Option Text

module _ (lib : RsaLib) where
  open lib use {
    Rsa, generate_key, size, private_pem, public_pem, read_private, read_public, public_encrypt,
    private_decrypt,
  }

  -- `fputs` of a key that was copied into an array of zeros with a byte more.
  abbrev key_text : Text → Option Text
  key_text pem = cstring (pem ++ 0 ∷ [])

  unfoldable pub generate_rsakey : Bool → Bool → KeyFiles → Option KeyFiles
  generate_rsakey pri_opens pub_opens files = do
    let keypair = generate_key 1024
    pri_text ← key_text (private_pem keypair)
    pub_text ← key_text (public_pem keypair)
    some (record {
      private_file = if pri_opens then some pri_text else files.private_file;
      public_file = if pub_opens then some pub_text else files.public_file;
    })

  -- A null pointer is `none`: the file does not open, or has no key.
  unfoldable pub get_pub_key : Bool → KeyFiles → Option Rsa
  get_pub_key opens files = if opens then files.public_file >>= read_public else none

  unfoldable pub get_pri_key : Bool → KeyFiles → Option Rsa
  get_pri_key opens files = if opens then files.private_file >>= read_private else none

  -- The array of `malloc` holds what was there before.
  unfoldable pub rsa_encrypt : List ℕ → List ℕ → Rsa → Option (List ℕ)
  rsa_encrypt old data_bytes rsa = do
    plain ← read_bytes 117 data_bytes
    write_at 0 (public_encrypt plain rsa) (take (size rsa) old)

  unfoldable pub rsa_decrypt : List ℕ → List ℕ → Rsa → Option (List ℕ)
  rsa_decrypt old data_bytes rsa = do
    sealed ← read_bytes (size rsa) data_bytes
    write_at 0 (private_decrypt sealed rsa) (take (size rsa) old)
