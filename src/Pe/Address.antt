-- ===== src/Pe/Address.antt =====
-- The conversions between addresses in memory and in the file: `rvaTofoa` and `foaTorva` of
-- ProcessMangerAlpha/GlobalVals.cpp.
pub mod Table
pub mod Layout
use process_manger_alpha.Base.{
  ℕ, zero, suc, ◌+◌, ◌-◌, ◌%◌, Bool, true, false, ◌&&◌, leb, ltb, if◌then◌else◌, some, none,
}
use process_manger_alpha.Text.{Text, codes, dword_mod}
use process_manger_alpha.Pe.Image.{Image, string_at}
use process_manger_alpha.Pe.Globals.{
  Action, pure, ◌>>=◌, ◌>>◌, need, undefined, message_box, set_section_name, buffer,
}
use process_manger_alpha.Pe.Headers.{
  nt_head, number_of_sections, first_section, section_size, virtual_address, size_of_raw_data,
  pointer_to_raw_data, add_dword,
}

-- DWORD subtraction.
abbrev pub sub_dword : ℕ → ℕ → ℕ
sub_dword a b = (a + dword_mod - b) % dword_mod

-- `return -1`, as a DWORD
abbrev pub minus_one : ℕ
minus_one = dword_mod - 1

out_of_range : Action ℕ
out_of_range = do message_box (codes "Out Of Range!"); pure minus_one

-- The section is found: its name is kept, and the address is moved by the distance of the section's
-- two starts.
found : Image → ℕ → ℕ → Action ℕ
found img sec address = do set_section_name (← need (string_at img sec)); pure address

-- The loop of `rvaTofoa`, over the sections left. The function has no `return` behind the loop.
unfoldable pub rva_loop : Image → ℕ → ℕ → ℕ → Action ℕ
unfolding found out_of_range
rva_loop img rva zero sec = undefined
rva_loop img rva (suc left) sec = do
  va ← need (virtual_address img sec)
  let next = rva_loop img rva left (sec + section_size)
  if ltb rva va then out_of_range else (do
    size ← need (size_of_raw_data img sec)
    if leb rva (add_dword va size)
        then (do
          ptr ← need (pointer_to_raw_data img sec)
          found img sec (add_dword (sub_dword rva va) ptr))
        else next)

unfoldable pub rva_to_foa : ℕ → Action ℕ
unfolding rva_loop
rva_to_foa rva = do
  img ← buffer
  nt ← need (nt_head img)
  count ← need (number_of_sections img nt)
  first ← need (first_section img nt)
  rva_loop img rva count first

-- The loop of `foaTorva`. Its upper bound is the section's end in memory, as in the source.
unfoldable pub foa_loop : Image → ℕ → ℕ → ℕ → Action ℕ
unfolding found
foa_loop img foa zero sec = undefined
foa_loop img foa (suc left) sec = do
  ptr ← need (pointer_to_raw_data img sec)
  let next = foa_loop img foa left (sec + section_size)
  if leb ptr foa
      then (do
        va ← need (virtual_address img sec)
        size ← need (size_of_raw_data img sec)
        if leb foa (add_dword va size)
            then found img sec (add_dword (sub_dword foa ptr) va)
            else next)
      else next

unfoldable pub foa_to_rva : ℕ → Action ℕ
unfolding foa_loop out_of_range
foa_to_rva foa = do
  img ← buffer
  nt ← need (nt_head img)
  count ← need (number_of_sections img nt)
  first ← need (first_section img nt)
  ptr ← need (pointer_to_raw_data img first)
  if ltb foa ptr then out_of_range else foa_loop img foa count first
