-- ===== src/Pe/AddressCalc/Modes.antt =====
-- Which of the three boxes can be edited, against the mode that `calculate` works in.
use process_manger_alpha.Base.{ℕ, ◌≡◌, some, arith, not, ◌==◌}
use process_manger_alpha.Pe.Globals.{Globals}
use process_manger_alpha.Pe.AddressCalc.{
  Calculator, init_dialog, choose_rva, choose_va, choose_foa, calculate, show_place, from_va,
  from_rva, from_foa,
}

-- Exactly the box that the mode reads can be edited.
pub record Agrees (d : Calculator) : Type 0 where
  pub va_box : d.va_read_only ≡ not (d.active == 1)
  pub rva_box : d.rva_read_only ≡ not (d.active == 2)
  pub foa_box : d.foa_read_only ≡ not (d.active == 3)

pub data Button : Type 0 where
  rva va foa : Button

abbrev pub choose : Button → Calculator → Calculator
choose rva = choose_rva
choose va = choose_va
choose foa = choose_foa

-- After each of the three buttons the editable box is the one that the mode reads, whatever state
-- the dialog was in.
pub choose-Agrees : (b : Button) (d : Calculator) → Agrees (choose b d)
unfolding choose_rva choose_va choose_foa
choose-Agrees rva d = ground arith
choose-Agrees va d = ground arith
choose-Agrees foa d = ground arith

-- The mode and the read-only flags are the same.
abbrev SameBoxes : Calculator → Calculator → Type 0
SameBoxes d d' =
    (d'.active ≡ d.active)
    × (d'.va_read_only ≡ d.va_read_only)
    × (d'.rva_read_only ≡ d.rva_read_only)
    × (d'.foa_read_only ≡ d.foa_read_only)

show_place-SameBoxes :
    (n : ℕ) (d : Calculator) {d' : Calculator} (g : Globals) {g' : Globals}
    → show_place n d g ≡ some (d', g')
    → SameBoxes d d'
unfolding show_place
show_place-SameBoxes n d g h = ground arith

calculate-SameBoxes :
    (d : Calculator) {d' : Calculator} (g : Globals) {g' : Globals}
    → calculate d g ≡ some (d', g')
    → SameBoxes d d'
unfolding calculate from_va from_rva from_foa
calculate-SameBoxes d g h = grind (arith, show_place-SameBoxes)

-- A calculation that ends leaves the editable box and the mode in agreement.
pub calculate-Agrees :
    (d : Calculator) {d' : Calculator} (g : Globals) {g' : Globals}
    → Agrees d
    → calculate d g ≡ some (d', g')
    → Agrees d'
calculate-Agrees d g a h = let same = calculate-SameBoxes d g h in ground arith

-- A dialog that is opened agrees with the mode exactly when the mode left over from the last time
-- is the one for relative addresses: `OnInitDialog` sets the boxes and not `isActive`.
pub init_dialog-Agrees_iff :
    (d : Calculator)
    → ((Agrees (init_dialog d)) → d.active ≡ 2) × (d.active ≡ 2 → Agrees (init_dialog d))
unfolding init_dialog
init_dialog-Agrees_iff d = (λ a. ground (arith, a.rva_box), λ e. ground arith)
