-- ===== src/Pe/Address/Table.antt =====
-- The section table as a list, and the conversions as searches in it: what `rvaTofoa` and
-- `foaTorva` compute of a file whose section headers can all be read.
use process_manger_alpha.Base.{
  ℕ, ◌+◌, leb, ltb, if◌then◌else◌, some, none, List, [], ◌∷◌, ◌≡◌, refl, arith, length,
}
use process_manger_alpha.Text.{Text, codes}
use process_manger_alpha.Pe.Image.{Image, string_at}
use process_manger_alpha.Pe.Globals.{Globals, Action}
use process_manger_alpha.Pe.Headers.{
  nt_head, number_of_sections, first_section, section_size, virtual_address, virtual_size,
  size_of_raw_data, pointer_to_raw_data, add_dword,
}
use process_manger_alpha.Pe.Address.{
  sub_dword, minus_one, rva_loop, rva_to_foa, foa_loop, foa_to_rva,
}

pub record Section : Type 0 where
  pub name : Text
  pub in_memory : ℕ
  pub va : ℕ
  pub raw_size : ℕ
  pub raw_start : ℕ

-- The section headers from an offset on are these.
abbrev pub Decodes : Image → ℕ → List Section → Type 0
Decodes img sec [] = Unit
Decodes img sec (s ∷ ss) =
    (virtual_address img sec ≡ some s.va)
    × (size_of_raw_data img sec ≡ some s.raw_size)
    × (pointer_to_raw_data img sec ≡ some s.raw_start)
    × (string_at img sec ≡ some s.name)
    × (virtual_size img sec ≡ some s.in_memory)
    × Decodes img (sec + section_size) ss

-- The file in the buffer has this section table.
pub record HasTable (g : Globals) (img : Image) (table : List Section) : Type 0 where
  pub nt : ℕ
  pub first : ℕ
  pub in_buffer : g.file_buff ≡ some img
  pub nt_is : nt_head img ≡ some nt
  pub count_is : number_of_sections img nt ≡ some (length table)
  pub first_is : first_section img nt ≡ some first
  pub decodes : Decodes img first table

-- Where a search ends: in a section, before one, or behind all of them.
pub data Located : Type 0 where
  inside : Section → Located
  before past : Located

unfoldable pub locate_rva : ℕ → List Section → Located
locate_rva rva [] = past
locate_rva rva (s ∷ ss) =
    if ltb rva s.va
    then before
    else if leb rva (add_dword s.va s.raw_size)
    then inside s
    else locate_rva rva ss

unfoldable pub locate_foa : ℕ → List Section → Located
locate_foa foa [] = past
locate_foa foa (s ∷ ss) =
    if leb s.raw_start foa
    then (if leb foa (add_dword s.va s.raw_size) then inside s else locate_foa foa ss)
    else locate_foa foa ss

-- What a search means for the caller, with the address that is returned for a section.
abbrev pub report : (Section → ℕ) → Located → Action ℕ
report address (inside s) g = some (address s, record g { section_name = s.name })
report address before g = some (minus_one, record g { boxes = codes "Out Of Range!" ∷ g.boxes })
report address past g = none

abbrev pub foa_in : ℕ → Section → ℕ
foa_in rva s = add_dword (sub_dword rva s.va) s.raw_start

abbrev pub rva_in : ℕ → Section → ℕ
rva_in foa s = add_dword (sub_dword foa s.raw_start) s.va

rva_loop-locate_rva :
    (img : Image) (rva sec : ℕ) (table : List Section) (g : Globals)
    → Decodes img sec table
    → rva_loop img rva (length table) sec g ≡ report (foa_in rva) (locate_rva rva table) g
unfolding rva_loop locate_rva
rva_loop-locate_rva img rva sec [] g d = refl
rva_loop-locate_rva img rva sec (s ∷ ss) g d =
    ground (arith, rva_loop-locate_rva img rva (sec + section_size) ss g d.5)

-- `rvaTofoa` is the search in the section table: an address in a section, its two ends included, is
-- moved to the section's place in the file and the section's name is kept; an address before the
-- first section that it has not passed gives -1 and a message; behind the last section there is no
-- defined result.
pub rva_to_foa-locate_rva :
    (rva : ℕ) (table : List Section) (g : Globals) {img : Image}
    → HasTable g img table
    → rva_to_foa rva g ≡ report (foa_in rva) (locate_rva rva table) g
unfolding rva_to_foa
rva_to_foa-locate_rva rva table g {img} h =
    ground (arith, rva_loop-locate_rva img rva h.first table g h.decodes)

foa_loop-locate_foa :
    (img : Image) (foa sec : ℕ) (table : List Section) (g : Globals)
    → Decodes img sec table
    → foa_loop img foa (length table) sec g ≡ report (rva_in foa) (locate_foa foa table) g
unfolding foa_loop locate_foa
foa_loop-locate_foa img foa sec [] g d = refl
foa_loop-locate_foa img foa sec (s ∷ ss) g d =
    ground (arith, foa_loop-locate_foa img foa (sec + section_size) ss g d.5)

abbrev pub located_from_first : ℕ → List Section → Located
located_from_first foa [] = past
located_from_first foa (s ∷ ss) = if ltb foa s.raw_start then before else locate_foa foa (s ∷ ss)

-- `foaTorva` is its search in the section table, once the address is not before the first section's
-- place in the file.
pub foa_to_rva-locate_foa :
    (foa : ℕ) (s : Section) (ss : List Section) (g : Globals) {img : Image}
    → HasTable g img (s ∷ ss)
    → foa_to_rva foa g ≡ report (rva_in foa) (located_from_first foa (s ∷ ss)) g
unfolding foa_to_rva
foa_to_rva-locate_foa foa s ss g {img} h = ground (
  arith,
  foa_loop-locate_foa img foa h.first (s ∷ ss) g h.decodes,
  h.decodes.0,
  h.decodes.1,
  h.decodes.2,
)
