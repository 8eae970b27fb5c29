-- ===== src/Tests/Uploads.antt =====
-- An upload, an update and the scans on concrete inputs.
use mathlib.Core.List.{map-append}
use mathlib.Core.List.Permᴰ
use process_manger_alpha.Base.{
  ℕ, ◌-◌, ◌≡◌, refl, sym, ap, ◌∙◌, Option, none, some, true, List, [], ◌∷◌, ◌++◌, map, arith,
  length, length-append, take, drop, take-append, filled, ◌≤◌, false,
}
use process_manger_alpha.Text.{Text, codes, hex_text, format_byte, format_hex, lower, is_space}
use process_manger_alpha.Text.Hex.{IsByte, HasLetter, IsMark}
use process_manger_alpha.ListView.{row_of}
use process_manger_alpha.ListView.Listed.{listed}
use process_manger_alpha.Scan.{File, join_path}
use process_manger_alpha.Scan.Viruses.{disk_c, check_by_path, check_all}
use process_manger_alpha.Scan.Viruses.Loading.{load_virus_file, load_virus_file-lines}
use process_manger_alpha.Crypto.{key_bytes, evp_decrypt}
use process_manger_alpha.Crypto.Des.{ciphertext, evp_decrypt_lem}
use process_manger_alpha.Server.{Database, Server}
use process_manger_alpha.Server.Library.{Inserts, table_of}
use process_manger_alpha.Client.{Client, update}
use process_manger_alpha.Client.Session.{
  upload_session, update_session, upload_session_lem, update_session_lem, update-replaces, latest,
  digest, sealed_sample, IsSample,
}
use process_manger_alpha.Client.Detection.{
  upload_and_update, upload_and_update_lem, check_by_path_uploaded, check_all_uploaded,
}
use process_manger_alpha.Tests.Scans.{no_time}
use process_manger_alpha.Tests.Session.{toy, toy-IsEcb}

-- A table: a statement adds what stands between its quotes.
abbrev pub samples : Database
samples = record {
  Db = List Text;
  mysql_query = λ sql db. db ++ take (length (drop 39 sql) - 2) (drop 39 sql) ∷ [];
  selected = λ db. some (map (λ s. some s ∷ []) db);
}

pub samples-Inserts : Inserts samples
samples-Inserts = record {
  inserted = λ s db library sound e. (
    library ++ s ∷ [],
    ap some (map-append row db _ ∙ ap (λ t. map row db ++ row t ∷ []) (quoted s))
        ∙ ap (with_row (row s)) e
        ∙ ap some (sym (table_of-append library s)),
    Permᴰ.refl (library ++ s ∷ []),
  );
}
  where
    row : Text → List (Option Text)
    row s = some s ∷ []

    table_of-append :
        (ss : List Text) (s : Text) → table_of (ss ++ s ∷ []) ≡ table_of ss ++ (some s ∷ []) ∷ []
    table_of-append [] s = refl
    table_of-append (x ∷ ss) s = ap (◌∷◌ (some x ∷ [])) (table_of-append ss s)

    with_row :
        List (Option Text) → Option (List (List (Option Text))) → Option (List (List (Option Text)))
    with_row r none = none
    with_row r (some rs) = some (rs ++ r ∷ [])

    quoted : (s : Text) → take (length (s ++ codes "')") - 2) (s ++ codes "')") ≡ s
    quoted s =
        let size : length (s ++ codes "')") - 2 ≡ length s =
          omega (arith, length-append s (codes "')")) in
        ap (λ n. take n (s ++ codes "')")) size ∙ take-append s (codes "')")

abbrev stack : List ℕ
stack = 1 ∷ 2 ∷ 3 ∷ 4 ∷ 5 ∷ 6 ∷ 7 ∷ 8 ∷ []

abbrev virus : List ℕ
virus = 1 ∷ 2 ∷ 3 ∷ []

virus-IsSample : IsSample toy (digest toy virus)
unfolding IsByte
virus-IsSample = record { sixteen = refl; in_range = ground arith; non_zero = ground arith }

abbrev client : Client
client = record { sent = []; virus_file = none; boxes = [] }

abbrev server : Server samples
server = record { db = []; sent = [] }

upload_session_lem_applied :
    (c' : Client) × (upload_session toy samples stack virus (client, server)
      ≡ some (c', record server { db = sealed_sample toy stack (digest toy virus) ∷ [] }))
    × (c'.virus_file ≡ none)
unfolding hex_text format_byte format_hex
upload_session_lem_applied =
    upload_session_lem toy samples stack virus client server (toy-IsEcb (key_bytes stack))
      virus-IsSample (ground arith)

update_session_lem_example :
    (c' : Client) × (update_session toy samples stack (
      client,
      record server { db = sealed_sample toy stack (digest toy virus) ∷ codes "rest" ∷ [] },
    )
      ≡ some (
        c',
        record {
          db = sealed_sample toy stack (digest toy virus) ∷ codes "rest" ∷ [];
          sent = (sealed_sample toy stack (digest toy virus) ++ codes "rest") ∷ [];
        },
      ))
    × (c'.virus_file ≡ some (hex_text lower (digest toy virus) ++ codes "\n"))
unfolding hex_text format_byte format_hex
update_session_lem_example =
    update_session_lem toy samples stack (digest toy virus) (codes "rest") client
      (record server { db = sealed_sample toy stack (digest toy virus) ∷ codes "rest" ∷ [] })
      (toy-IsEcb (key_bytes stack)) virus-IsSample refl refl (omega arith)

upload_and_update_lem_example :
    (c' : Client) × (s' : Server samples) × (upload_and_update toy samples stack stack virus
        (client, server)
      ≡ some (c', s'))
    × (c'.virus_file ≡ some (hex_text lower (digest toy virus) ++ codes "\n"))
    × (samples.selected s'.db
        ≡ some ((some (sealed_sample toy stack (digest toy virus)) ∷ []) ∷ []))
unfolding hex_text format_byte format_hex
upload_and_update_lem_example =
    upload_and_update_lem toy samples stack virus stack client server refl
      (toy-IsEcb (key_bytes stack)) samples-Inserts virus-IsSample (ground arith) (ground arith)
      refl

abbrev file : File
file = record {
  name = codes "v";
  hidden = false;
  created = no_time;
  written = no_time;
  size = 3;
  get_file_size = 3;
  content = virus;
}

abbrev path : Text
path = codes "C:"

check_by_path_uploaded_example :
    (known : List Text) × (load_virus_file
        (some (hex_text lower (digest toy virus) ++ codes "\n"))
        []
      ≡ some known)
    × (listed.rows (check_by_path listed (digest toy) known path file 0 ([], [])).1.0
        ≡ row_of (join_path path (codes "v") ∷ hex_text lower (digest toy virus) ∷ []) ∷ [])
check_by_path_uploaded_example =
    check_by_path_uploaded toy samples stack virus listed path file 0 [] [] virus-IsSample refl
      (omega arith)

check_all_uploaded_example :
    (known : List Text) × (load_virus_file
        (some (hex_text lower (digest toy virus) ++ codes "\n"))
        []
      ≡ some known)
    × (check_all listed
          (digest toy)
          disk_c
          known
          path
          file
          0
          (record { n_index = 0; list = []; held = λ k. 0 }, [])
        ≡ (0, (record { n_index = 0; list = []; held = λ k. 0 }, [])))
unfolding HasLetter
check_all_uploaded_example =
    check_all_uploaded toy samples stack virus listed disk_c path file 0
      (record { n_index = 0; list = []; held = λ k. 0 }) [] virus-IsSample refl (ground arith)

load_virus_file-lines_example :
    load_virus_file (some (codes "ab01\ncd02\n")) (codes "ef" ∷ [])
    ≡ some (codes "ef" ∷ codes "ab01" ∷ codes "cd02" ∷ [])
unfolding IsMark is_space
load_virus_file-lines_example =
    load_virus_file-lines (codes "ab01") (codes "cd02" ∷ []) (codes "ef" ∷ []) (ground arith)

evp_decrypt_lem_applied :
    (out_length : ℕ) × (more : List ℕ) × (evp_decrypt toy stack
        (ciphertext toy (key_bytes stack) (codes "secret!!"))
        (filled 30 [])
        16
      ≡ some (out_length, filled 30 (codes "secret!!" ++ more)))
    × (out_length ≡ length (codes "secret!!" ++ more))
    × (out_length ≤ 16)
evp_decrypt_lem_applied =
    evp_decrypt_lem toy stack (ciphertext toy (key_bytes stack) (codes "secret!!"))
      (codes "secret!!") [] 30 16 1 (toy-IsEcb (key_bytes stack)) (omega arith) refl (omega arith)
      refl refl

update-replaces_applied :
    (c' : Client) × (text : Text) × (update toy stack [] true client ≡ some c')
    × (c'.virus_file ≡ some (text ++ codes "\n"))
    × (latest c'.boxes ≡ some (codes "更新成功，本地病毒库已经是最新的了"))
update-replaces_applied = update-replaces toy stack [] client (toy-IsEcb (key_bytes stack))
