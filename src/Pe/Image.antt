-- ===== src/Pe/Image.antt =====
-- The buffer that holds the file under inspection (`fileBuff`), read as little-endian numbers.
use process_manger_alpha.Base.{ℕ, ◌+◌, ◌*◌, ◌%◌, List, Option, none, some, get_elem?, drop}
use process_manger_alpha.Text.{Text, cstring, dword_mod}

-- The address of the buffer, which the source casts to a DWORD, and its bytes.
pub record Image : Type 0 where
  pub base : ℕ
  pub bytes : List ℕ

infixl 5 ◌>>=◌
abbrev ◌>>=◌ {ℓ κ} : {A : Type ℓ} {B : Type κ} → Option A → (A → Option B) → Option B
none >>= f = none
some a >>= f = f a

-- A read at an offset from the buffer. Addresses have 32 bits, so an offset beyond them wraps; a
-- read outside the buffer has no value.
unfoldable pub byte_at : Image → ℕ → Option ℕ
byte_at img at_offset = get_elem? img.bytes (at_offset % dword_mod)

unfoldable pub word_at : Image → ℕ → Option ℕ
unfolding byte_at
word_at img o = do lo ← byte_at img o; hi ← byte_at img (o + 1); some (lo + 256 * hi)

unfoldable pub dword_at : Image → ℕ → Option ℕ
unfolding word_at
dword_at img o = do lo ← word_at img o; hi ← word_at img (o + 2); some (lo + 65536 * hi)

-- A narrow string, up to its zero byte.
unfoldable pub string_at : Image → ℕ → Option Text
unfolding cstring
string_at img o = cstring (drop (o % dword_mod) img.bytes)
