-- ===== src/Pe/Globals.antt =====
-- The globals that the dialogs of the PE viewer share (ProcessMangerAlpha/GlobalVals.h and
-- CPEFileDialog.cpp), and the handlers' monad over them.
use process_manger_alpha.Base.{ℕ, List, ◌∷◌, Option, none, some}
use process_manger_alpha.Text.{Text}
use process_manger_alpha.Pe.Image.{Image}

-- A pointer into a buffer. A buffer is never freed, so a pointer into an earlier one stays good.
pub record Ptr : Type 0 where
  pub into : Image
  pub offset : ℕ

pub record Globals : Type 0 where
  -- fileBuff, NULL until a file is chosen
  pub file_buff : Option Image
  -- optHead
  pub opt_head : Option Ptr
  -- sectionName
  pub section_name : Text
  -- what MessageBox has shown, the latest first
  pub boxes : List Text

abbrev pub Action : Type 0 → Type 0
Action A = Globals → Option (A × Globals)

abbrev pub pure : {A : Type 0} → A → Action A
pure a g = some (a, g)

infixl 5 ◌>>=◌ ◌>>◌
abbrev pub ◌>>=◌ : {A B : Type 0} → Action A → (A → Action B) → Action B
◌>>=◌ m f g = elim (m g) [ none ↦ none | some (a, g') ↦ f a g' ]

abbrev pub ◌>>◌ : {B : Type 0} → Action (Unit {0}) → Action B → Action B
m >> k = m >>= λ _. k

-- A value that may be missing, such as one read from memory.
abbrev pub need : {A : Type 0} → Option A → Action A
need none g = none
need (some a) g = some (a, g)

-- Undefined behaviour.
abbrev pub undefined : {A : Type 0} → Action A
undefined g = none

abbrev pub message_box : Text → Action (Unit {0})
message_box s g = some (tt, record g { boxes = s ∷ g.boxes })

abbrev pub set_section_name : Text → Action (Unit {0})
set_section_name s g = some (tt, record g { section_name = s })

abbrev pub set_opt_head : Option Ptr → Action (Unit {0})
set_opt_head p g = some (tt, record g { opt_head = p })

-- The buffer behind `fileBuff`; a read through NULL is undefined.
abbrev pub buffer : Action Image
buffer g = need g.file_buff g

-- optHead, which is about to be read through.
abbrev pub current_opt_head : Action Ptr
current_opt_head g = need g.opt_head g

abbrev pub get_section_name : Action Text
get_section_name g = some (g.section_name, g)
