-- ===== src/Pe/Headers.antt =====
-- Where the headers of a 32-bit PE file lie, and the section table. The numbers are the field
-- offsets of the structures of winnt.h, which the PE format fixes.
use process_manger_alpha.Base.{ℕ, ◌+◌, ◌*◌, ◌%◌, Option, none, some}
use process_manger_alpha.Text.{dword_mod}
use process_manger_alpha.Pe.Image.{Image, word_at, dword_at}

infixl 5 ◌>>=◌
abbrev ◌>>=◌ {ℓ κ} : {A : Type ℓ} {B : Type κ} → Option A → (A → Option B) → Option B
none >>= f = none
some a >>= f = f a

-- `PIMAGE_NT_HEADERS(dosHead->e_lfanew + (LONG)fileBuff)`, as an offset from the buffer.
unfoldable pub nt_head : Image → Option ℕ
nt_head img = dword_at img 0x3c

-- The offsets of FileHeader and OptionalHeader within IMAGE_NT_HEADERS.
abbrev pub file_head : ℕ → ℕ
file_head nt = nt + 4

abbrev pub opt_head_of : ℕ → ℕ
opt_head_of nt = nt + 24

-- FileHeader.NumberOfSections
abbrev pub number_of_sections : Image → ℕ → Option ℕ
number_of_sections img nt = word_at img (file_head nt + 2)

-- `IMAGE_FIRST_SECTION(ntHead)`
unfoldable pub first_section : Image → ℕ → Option ℕ
first_section img nt = do size ← word_at img (file_head nt + 16); some (opt_head_of nt + size)

-- sizeof(IMAGE_SECTION_HEADER), and the fields of the section header at an offset.
abbrev pub section_size : ℕ
section_size = 40

abbrev pub virtual_size : Image → ℕ → Option ℕ
virtual_size img sec = dword_at img (sec + 8)

abbrev pub virtual_address : Image → ℕ → Option ℕ
virtual_address img sec = dword_at img (sec + 12)

abbrev pub size_of_raw_data : Image → ℕ → Option ℕ
size_of_raw_data img sec = dword_at img (sec + 16)

abbrev pub pointer_to_raw_data : Image → ℕ → Option ℕ
pointer_to_raw_data img sec = dword_at img (sec + 20)

-- `optHead->DataDirectory[i].VirtualAddress`, with `optHead` at an offset.
abbrev pub directory_rva : Image → ℕ → ℕ → Option ℕ
directory_rva img opt i = dword_at img (opt + 96 + 8 * i)

abbrev pub directory_size : Image → ℕ → ℕ → Option ℕ
directory_size img opt i = dword_at img (opt + 100 + 8 * i)

-- Sums and differences of DWORDs wrap.
abbrev pub add_dword : ℕ → ℕ → ℕ
add_dword a b = (a + b) % dword_mod
