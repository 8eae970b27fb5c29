-- ===== src/Client.antt =====
-- The client of the virus library: ProcessMangerAlpha/CVirusDefenceDialog.cpp. What `send`
-- is given is kept, and what `recv` receives is an argument, as are the file that the user picks and
-- the bytes of the stack that the key runs into.

pub mod Dialog
pub mod Session
pub mod Detection
use process_manger_alpha.Base.{
  ℕ, ◌==◌, Bool, true, false, Option, none, some, List, [], ◌∷◌, ◌++◌, length, take, replicate,
  filled, write_at, if◌then◌else◌,
}
use process_manger_alpha.Text.{Text, codes, cstring, lower, format_byte}
use process_manger_alpha.Crypto.{OpenSsl, evp_encrypt, evp_decrypt, md5_encrypt, ◌>>=◌}
use process_manger_alpha.Server.{update_virus, payload_virus}

pub record Client : Type 0 where
  -- the messages sent, the latest first
  pub sent : List (List ℕ)
  -- TheVirus.txt
  pub virus_file : Option Text
  pub boxes : List Text

-- MYMSG as its bytes: `msgType`, and the 200 bytes of `msgBuf`.
abbrev pub mymsg : ℕ → List ℕ → List ℕ
mymsg msg_type msg_buf = msg_type ∷ 0 ∷ 0 ∷ 0 ∷ msg_buf

abbrev pub zero_array : ℕ → List ℕ
zero_array n = filled n []

-- `while (fileMD5[j] != 0)`: two digits for each byte in front of the first zero byte.
unfoldable pub hex_of_md5 : List ℕ → Option Text
hex_of_md5 [] = none
hex_of_md5 (b ∷ bs) = elim (b == 0) [
  | true ↦ some []
  | false ↦ elim (hex_of_md5 bs) [ none ↦ none | some rest ↦ some (format_byte lower b ++ rest) ]
]

abbrev pub update_message : Option (List ℕ)
update_message = do
  msg_buf ← write_at 0 (codes "0" ++ 0 ∷ []) (zero_array 200)
  some (mymsg update_virus msg_buf)

module _ (lib : OpenSsl) where
  -- The message that is sent for a file of this content: 200 of the 204 bytes of the structure.
  unfoldable pub payload_message : List ℕ → List ℕ → Option (List ℕ)
  unfolding hex_of_md5
  payload_message stack content = do
    file_md5 ← md5_encrypt lib content (zero_array 40)
    str_en ← hex_of_md5 file_md5
    temp_buf ← write_at 0 (str_en ++ 0 ∷ []) (zero_array 200)
    aes ← evp_encrypt lib stack temp_buf (zero_array 200) 40
    some (take 200 (mymsg payload_virus aes.1))

  -- OnBnClickedButton3, for a file that the user picks and that opens. With no such file the size is
  -- 0xFFFFFFFF, and `new` throws.
  unfoldable pub upload : List ℕ → Option (List ℕ) → Client → Option Client
  unfolding payload_message
  upload stack picked c = do
    content ← picked
    message ← payload_message stack content
    some (record c { sent = message ∷ c.sent; boxes = codes "上传成功！" ∷ c.boxes })

  -- What the text that is printed to the file is, from what is received.
  unfoldable pub decrypt_reply : List ℕ → List ℕ → Option Text
  decrypt_reply stack received = do
    let recv_buf = take 200 (received ++ replicate 200 0)
    de ← evp_decrypt lib stack recv_buf (zero_array 100) 88
    cstring de.1

  -- OnBnClickedButton4. A file that cannot be opened is printed to through a null pointer.
  unfoldable pub update : List ℕ → List ℕ → Bool → Client → Option Client
  unfolding decrypt_reply
  update stack received opens c = do
    message ← update_message
    de_md5 ← decrypt_reply stack received
    let updated = some (record c {
      sent = message ∷ c.sent;
      virus_file = some (de_md5 ++ codes "\n");
      boxes = codes "更新成功，本地病毒库已经是最新的了" ∷ codes "解密中..." ∷ c.boxes;
    })
    if opens then updated else none
