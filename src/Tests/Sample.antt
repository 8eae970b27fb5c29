-- ===== src/Tests/Sample.antt =====
-- A PE file of 648 bytes with two sections, an import table with one module, a relocation table with
-- one block, and tables of exports. Its number of data directories, and where its second section
-- lies in memory, are parameters.
use process_manger_alpha.Base.{ℕ, ◌/◌, ◌%◌, List, [], ◌∷◌, ◌++◌, replicate, refl, some, none}
use process_manger_alpha.Text.{codes}
use process_manger_alpha.Pe.Image.{Image, dword_at, string_at}
use process_manger_alpha.Pe.Globals.{Globals}
use process_manger_alpha.Pe.Headers.{nt_head, first_section}
use process_manger_alpha.Pe.Address.Table.{Section, HasTable}

abbrev pub zeros : ℕ → List ℕ
zeros n = replicate n 0

abbrev pub w2 : ℕ → List ℕ
w2 n = n % 256 ∷ n / 256 % 256 ∷ []

abbrev pub w4 : ℕ → List ℕ
w4 n = n % 256 ∷ n / 256 % 256 ∷ n / 65536 % 256 ∷ n / 16777216 % 256 ∷ []

-- The first 88 bytes: the DOS header, the signature and the file header.
abbrev pub head_bytes : List ℕ
head_bytes =
    w2 0x5a4d
    ++ zeros 58
    ++ w4 0x40
    ++ w4 0x4550
    ++ w2 0x14c
    ++ w2 2
    ++ zeros 12
    ++ w2 224
    ++ w2 0x102

-- The optional header: the entries 1 and 5 of the data directory are set.
abbrev opt_bytes : ℕ → List ℕ
opt_bytes count =
    w2 0x10b
    ++ zeros 26
    ++ w4 0x400000
    ++ zeros 60
    ++ w4 count
    ++ zeros 8
    ++ w4 0x1000
    ++ w4 40
    ++ zeros 24
    ++ w4 0x2000
    ++ w4 12
    ++ zeros 80

abbrev pub section_bytes : ℕ → List ℕ
section_bytes va =
    codes ".text"
    ++ zeros 3
    ++ w4 0x80
    ++ w4 0x1000
    ++ w4 0x80
    ++ w4 0x188
    ++ zeros 16
    ++ codes ".data"
    ++ zeros 3
    ++ w4 0x80
    ++ w4 va
    ++ w4 0x80
    ++ w4 0x208
    ++ zeros 16

-- The first section: the import table, the name of the module and its thunks.
abbrev pub text_bytes : List ℕ
text_bytes =
    w4 0x1050
    ++ zeros 8
    ++ w4 0x1028
    ++ w4 0x1030
    ++ zeros 20
    ++ codes "a.dll"
    ++ zeros 3
    ++ w4 0x80000005
    ++ zeros 76

-- The second section: the relocation table, and then the tables of functions and ordinals.
abbrev data_bytes : List ℕ
data_bytes =
    w4 0x1000
    ++ w4 12
    ++ w2 0x3010
    ++ w2 0
    ++ zeros 8
    ++ w4 0x1004
    ++ w4 0
    ++ w2 7
    ++ w2 0
    ++ w4 0x1028
    ++ zeros 92

abbrev pub sample : ℕ → ℕ → Image
sample count va = record {
  base = 0x400000;
  bytes = head_bytes ++ opt_bytes count ++ section_bytes va ++ text_bytes ++ data_bytes;
}

abbrev pub text_section : Section
text_section = record {
  name = codes ".text";
  in_memory = 0x80;
  va = 0x1000;
  raw_size = 0x80;
  raw_start = 0x188;
}

abbrev pub data_section : ℕ → Section
data_section at = record {
  name = codes ".data";
  in_memory = 0x80;
  va = at;
  raw_size = 0x80;
  raw_start = 0x208;
}

abbrev pub loaded : Image → Globals
loaded img = record { file_buff = some img; opt_head = none; section_name = []; boxes = [] }

abbrev pub file : Image
file = sample 16 0x2000

abbrev pub sections : List Section
sections = text_section ∷ data_section 0x2000 ∷ []

-- The section table of a sample whose second section is at `va`.
abbrev pub Table : ℕ → ℕ → Type 0
Table count va =
    HasTable (loaded (sample count va)) (sample count va) (text_section ∷ data_section va ∷ [])

pub file-HasTable : Table 16 0x2000
unfolding nt_head first_section dword_at string_at
file-HasTable = record {
  nt = 0x40;
  first = 312;
  in_buffer = refl;
  nt_is = refl;
  count_is = refl;
  first_is = refl;
  decodes = (refl, refl, refl, refl, refl, (refl, refl, refl, refl, refl, tt));
}

-- The two sections touch in memory.
pub touching-HasTable : Table 16 0x1080
unfolding nt_head first_section dword_at string_at
touching-HasTable = record {
  nt = 0x40;
  first = 312;
  in_buffer = refl;
  nt_is = refl;
  count_is = refl;
  first_is = refl;
  decodes = (refl, refl, refl, refl, refl, (refl, refl, refl, refl, refl, tt));
}
