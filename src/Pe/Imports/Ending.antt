-- ===== src/Pe/Imports/Ending.antt =====
-- The two loops of the import table end on every file, since each round is further on in it and a read
-- behind its end has no result.
use process_manger_alpha.Base.{
  ℕ, zero, suc, ◌+◌, ◌%◌, ◌≤◌, ◌<◌, ◌≡◌, refl, sym, ap, ◌∙◌, none, some, List, [], ◌∷◌, arith,
  length, get_elem?, inl, inr, Bool-cases, leb, leb→le,
}
use process_manger_alpha.Text.{dword_mod}
use process_manger_alpha.ListView.{ListView}
use process_manger_alpha.Pe.Image.{Image, byte_at, word_at, dword_at}
use process_manger_alpha.Pe.Globals.{Globals, ◌>>=◌, need, Action}
use process_manger_alpha.Pe.Headers.{add_dword}
use process_manger_alpha.Pe.Address.{rva_to_foa}
use process_manger_alpha.Pe.Tables.{table_foa}
use process_manger_alpha.Pe.Imports.{
  module_round, module_rows, get_import_table_info, func_round, func_rows, get_func_info,
}

get_elem?_past : (xs : List ℕ) (i : ℕ) → length xs ≤ i → get_elem? xs i ≡ none
get_elem?_past [] i h = refl
get_elem?_past (x ∷ xs) zero h = absurd (omega arith)
get_elem?_past (x ∷ xs) (suc i) h = get_elem?_past xs i (omega arith)

dword_at_outside :
    (img : Image) (o : ℕ) → length img.bytes ≤ o → o < dword_mod → dword_at img o ≡ none
unfolding byte_at word_at dword_at
dword_at_outside img o h k =
    let here : o % dword_mod ≡ o = omega arith in
    let past : get_elem? img.bytes (o % dword_mod) ≡ none =
      rw here (get_elem?_past img.bytes o h) in
    rw past refl

module _ (v : ListView) where
  open v use {Ctrl}

  module_round_outside :
      (rest : Ctrl → Action Ctrl) (img : Image) (desc i : ℕ) (c : Ctrl) (g : Globals)
      → length img.bytes ≤ desc
      → desc + 12 < dword_mod
      → module_round v rest img desc i c g ≡ none
  unfolding module_round
  module_round_outside rest img desc i c g h k =
      rw (dword_at_outside img (desc + 12) (omega arith) k, ◌>>=◌, need) refl

  func_round_outside :
      (rest : Ctrl → Action Ctrl) (img : Image) (rva foa i : ℕ) (c : Ctrl) (g : Globals)
      → length img.bytes ≤ foa
      → foa < dword_mod
      → func_round v rest img rva foa i c g ≡ none
  unfolding func_round
  func_round_outside rest img rva foa i c g h k =
      rw (dword_at_outside img foa h k, ◌>>=◌, need) refl

  -- The loops with something else to do where the fuel is out.
  pub module_rounds : (Ctrl → Action Ctrl) → ℕ → Image → ℕ → ℕ → Ctrl → Action Ctrl
  module_rounds spare zero img desc i c = spare c
  module_rounds spare (suc fuel) img desc i c =
      module_round v (module_rounds spare fuel img (desc + 20) (suc i)) img desc i c

  pub func_rounds : (Ctrl → Action Ctrl) → ℕ → Image → ℕ → ℕ → ℕ → Ctrl → Action Ctrl
  func_rounds spare zero img rva foa i c = spare c
  func_rounds spare (suc fuel) img rva foa i c =
      func_round v (func_rounds spare fuel img (add_dword rva 4) (add_dword foa 4) (suc i)) img rva
        foa i c

  module_rows-module_rounds :
      (spare : Ctrl → Action Ctrl) (fuel : ℕ) (img : Image) (desc i : ℕ) (c : Ctrl) (g : Globals)
      → 0 < fuel
      → length img.bytes + 40 ≤ dword_mod
      → desc + 20 ≤ dword_mod
      → length img.bytes < desc + fuel
      → module_rows v fuel img desc i c g ≡ module_rounds spare fuel img desc i c g
  unfolding module_rows module_rounds
  module_rows-module_rounds spare zero img desc i c g some_fuel small here f = absurd (omega arith)
  module_rows-module_rounds spare (suc fuel) img desc i c g some_fuel small here f =
      let rest = module_rows v fuel img (desc + 20) (suc i) in
      let rest' = module_rounds spare fuel img (desc + 20) (suc i) in
      elim (Bool-cases (leb (length img.bytes) desc)) [
        | inl past ↦
            let h = leb→le (length img.bytes) desc past in
            module_round_outside rest img desc i c g h (omega arith)
            ∙ sym (module_round_outside rest' img desc i c g h (omega arith))
        | inr inside ↦
            let h : desc < length img.bytes = ground arith in
            ap {A = Ctrl → Action Ctrl} (λ next. module_round v next img desc i c g)
              (λ k c' g'.
                module_rows-module_rounds spare fuel img (desc + 20) (suc i) c' g' (omega arith)
                  small (omega arith) (omega arith) k)
      ]

  func_rows-func_rounds :
      (spare : Ctrl → Action Ctrl) (fuel : ℕ) (img : Image) (rva foa i : ℕ) (c : Ctrl) (g : Globals)
      → 0 < fuel
      → length img.bytes + 40 ≤ dword_mod
      → foa < dword_mod
      → length img.bytes < foa + fuel
      → func_rows v fuel img rva foa i c g ≡ func_rounds spare fuel img rva foa i c g
  unfolding func_rows func_rounds
  func_rows-func_rounds spare zero img rva foa i c g some_fuel small here f = absurd (omega arith)
  func_rows-func_rounds spare (suc fuel) img rva foa i c g some_fuel small here f =
      let rest = func_rows v fuel img (add_dword rva 4) (add_dword foa 4) (suc i) in
      let rest' = func_rounds spare fuel img (add_dword rva 4) (add_dword foa 4) (suc i) in
      elim (Bool-cases (leb (length img.bytes) foa)) [
        | inl past ↦
            let h = leb→le (length img.bytes) foa past in
            func_round_outside rest img rva foa i c g h here
            ∙ sym (func_round_outside rest' img rva foa i c g h here)
        | inr inside ↦
            let h : foa < length img.bytes = ground arith in
            ap {A = Ctrl → Action Ctrl} (λ next. func_round v next img rva foa i c g)
              (λ k c' g'.
                func_rows-func_rounds spare fuel img (add_dword rva 4) (add_dword foa 4) (suc i) c'
                  g' (omega arith) small (omega arith) (omega arith) k)
      ]

  -- The loop over the descriptors ends on every file that is 40 bytes or more below 4 GB, with the
  -- table 20 bytes or more below: whatever the file holds, with more fuel than it has bytes the fuel
  -- is not used up, so that it makes no difference what is done when it is.
  pub get_import_table_info-ends :
      (spare : Ctrl → Action Ctrl) (fuel : ℕ) (c : Ctrl) (g g' : Globals) {img : Image} {foa : ℕ}
      → table_foa 1 g ≡ some (foa, g')
      → g'.file_buff ≡ some img
      → length img.bytes + 40 ≤ dword_mod
      → foa + 20 ≤ dword_mod
      → length img.bytes < fuel
      → get_import_table_info v fuel c g ≡ module_rounds spare fuel img foa 0 c g'
  unfolding get_import_table_info
  get_import_table_info-ends spare fuel c g g' {img} {foa} table loaded small here f =
      let same =
        module_rows-module_rounds spare fuel img foa 0 c g' (omega arith) small here
          (omega arith) in
      ground (arith, same)

  -- The loop over the thunks of a module ends on every file that is 40 bytes or more below 4 GB:
  -- whatever the file holds, with more fuel than it has bytes the fuel is not used up, so that it
  -- makes no difference what is done when it is.
  pub get_func_info-ends :
      (spare : Ctrl → Action Ctrl) (fuel rva : ℕ) (c : Ctrl) (g g' : Globals) {img : Image}
      {foa : ℕ}
      → rva_to_foa rva g ≡ some (foa, g')
      → g'.file_buff ≡ some img
      → length img.bytes + 40 ≤ dword_mod
      → foa < dword_mod
      → length img.bytes < fuel
      → get_func_info v fuel rva c g ≡ func_rounds spare fuel img rva foa 0 c g'
  unfolding get_func_info
  get_func_info-ends spare fuel rva c g g' {img} {foa} placed loaded small here f =
      let same =
        func_rows-func_rounds spare fuel img rva foa 0 c g' (omega arith) small here
          (omega arith) in
      ground (arith, same)
