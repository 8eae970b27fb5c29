-- ===== src/Pe/Address/Layout.antt =====
-- The conversions on a file whose sections follow one another in memory with a gap between them,
-- and where they go wrong.
use process_manger_alpha.Base.{
  ℕ, ◌+◌, ◌-◌, ◌≤◌, ◌<◌, ◌≢◌, some, List, [], ◌∷◌, ◌++◌, ◌≡◌, arith, All, ◌∙◌, ap,
}
use process_manger_alpha.Text.{dword_mod}
use process_manger_alpha.Pe.Image.{Image}
use process_manger_alpha.Pe.Globals.{Globals}
use process_manger_alpha.Pe.Address.{rva_to_foa, foa_to_rva}
use process_manger_alpha.Pe.Address.Table.{
  Section, HasTable, inside, locate_rva, locate_foa, rva_to_foa-locate_rva, foa_to_rva-locate_foa,
}

-- The section ends within 32 bits, in memory and in the file.
abbrev pub Fits : Section → Type 0
Fits s = (s.va + s.raw_size < dword_mod) × (s.raw_start + s.raw_size < dword_mod)

abbrev pub IsLaidOut : List Section → Type 0
IsLaidOut [] = Unit
IsLaidOut (s ∷ ss) = Fits s × All (λ t. s.va + s.raw_size < t.va) ss × IsLaidOut ss

All-middle {ℓ κ} :
    {A : Type ℓ} (P : A → Type κ) (xs ys : List A) (a : A) → All P (xs ++ a ∷ ys) → P a
All-middle P [] ys a h = h.0
All-middle P (x ∷ xs) ys a h = All-middle P xs ys a h.1

IsLaidOut-middle : (xs ys : List Section) (s : Section) → IsLaidOut (xs ++ s ∷ ys) → Fits s
IsLaidOut-middle [] ys s h = h.0
IsLaidOut-middle (x ∷ xs) ys s h = IsLaidOut-middle xs ys s h.2

locate_rva-inside :
    (rva : ℕ) (xs ys : List Section) (s : Section)
    → IsLaidOut (xs ++ s ∷ ys)
    → s.va ≤ rva
    → rva < s.va + s.raw_size
    → locate_rva rva (xs ++ s ∷ ys) ≡ inside s
unfolding locate_rva
locate_rva-inside rva [] ys s h lo hi = ground arith
locate_rva-inside rva (x ∷ xs) ys s h lo hi = ground (
  arith,
  All-middle (λ t. x.va + x.raw_size < t.va) xs ys s h.1,
  locate_rva-inside rva xs ys s h.2 lo hi,
)

-- An address inside a section is moved by exactly the distance from the section's start, with no
-- wrap-around, and the section's name is kept, whichever section of a laid-out table it is.
pub rva_to_foa-in_section :
    (rva : ℕ) (xs ys : List Section) (s : Section) (g : Globals) {img : Image}
    → HasTable g img (xs ++ s ∷ ys)
    → IsLaidOut (xs ++ s ∷ ys)
    → s.va ≤ rva
    → rva < s.va + s.raw_size
    → rva_to_foa rva g ≡ some (s.raw_start + (rva - s.va), record g { section_name = s.name })
rva_to_foa-in_section rva xs ys s g h laid lo hi =
    rva_to_foa-locate_rva rva (xs ++ s ∷ ys) g h
    ∙ rw (locate_rva-inside rva xs ys s laid lo hi) (
        let fits = IsLaidOut-middle xs ys s laid in
        ap (λ a. some (a, record g { section_name = s.name })) (omega arith))

-- Where two sections touch in memory, the first address of the second is taken for one of the first:
-- the upper bound of `rvaTofoa` is not strict.
pub rva_to_foa_touching :
    (s t : Section) (ss : List Section) (g : Globals) {img : Image}
    → HasTable g img (s ∷ t ∷ ss)
    → Fits s
    → t.va ≡ s.va + s.raw_size
    → rva_to_foa t.va g ≡ some (s.raw_start + s.raw_size, record g { section_name = s.name })
unfolding locate_rva
rva_to_foa_touching s t ss g h fits e = rva_to_foa-locate_rva t.va (s ∷ t ∷ ss) g h ∙ ground arith

-- The place of an address of the first section, and what this place is converted to.
pub both_ways :
    (rva : ℕ) (s : Section) (ss : List Section) (g : Globals) {img : Image}
    → HasTable g img (s ∷ ss)
    → Fits s
    → s.raw_start ≤ s.va
    → s.va ≤ rva
    → rva ≤ s.va + s.raw_size
    → let foa = s.raw_start + (rva - s.va) in
      let g' = record g { section_name = s.name } in
      (rva_to_foa rva g ≡ some (foa, g')) × (foa_to_rva foa g' ≡ some (rva, g'))
unfolding locate_rva locate_foa
both_ways rva s ss g h fits low lo hi =
    let foa = s.raw_start + (rva - s.va) in
    let g' = record g { section_name = s.name } in
    (
      rva_to_foa-locate_rva rva (s ∷ ss) g h ∙ ground arith,
      foa_to_rva-locate_foa foa s ss g' (record {
        nt = h.nt;
        first = h.first;
        in_buffer = h.in_buffer;
        nt_is = h.nt_is;
        count_is = h.count_is;
        first_is = h.first_is;
        decodes = h.decodes;
      })
          ∙ ground arith,
    )

-- An address of the first section is converted to the file and back without loss, if that section
-- does not lie further back in the file than in memory.
pub foa_to_rva-rva_to_foa :
    (rva : ℕ) (s : Section) (ss : List Section) (g : Globals) {img : Image}
    → HasTable g img (s ∷ ss)
    → Fits s
    → s.raw_start ≤ s.va
    → s.va ≤ rva
    → rva ≤ s.va + s.raw_size
    → (foa : ℕ) × (g' : Globals) × (rva_to_foa rva g ≡ some (foa, g'))
      × (foa_to_rva foa g' ≡ some (rva, g'))
foa_to_rva-rva_to_foa rva s ss g h fits low lo hi =
    let (there, back) = both_ways rva s ss g h fits low lo hi in (_, _, there, back)

-- A place in the file that belongs to a later section `t` is converted by the first section, if it
-- is not behind that section's end in memory; where the two sections have been moved by different
-- distances, the result is not the address at which `t` has it.
pub foa_to_rva_shadowed :
    (foa : ℕ) (s t : Section) (ss : List Section) (g : Globals) {img : Image}
    → HasTable g img (s ∷ t ∷ ss)
    → Fits s
    → Fits t
    → s.raw_start ≤ foa
    → foa ≤ s.va + s.raw_size
    → t.raw_start ≤ foa
    → foa < t.raw_start + t.raw_size
    → foa - s.raw_start + s.va < dword_mod
    → t.va + s.raw_start ≢ s.va + t.raw_start
    → (foa_to_rva foa g ≡ some (foa - s.raw_start + s.va, record g { section_name = s.name }))
      × (foa - s.raw_start + s.va ≢ foa - t.raw_start + t.va)
unfolding locate_foa
foa_to_rva_shadowed foa s t ss g h fits fits' a b c d e ne =
    (foa_to_rva-locate_foa foa s (t ∷ ss) g h ∙ ground arith, omega arith)
