-- ===== src/Tests/Serving.antt =====
-- The server from its start, at the table of texts of `Uploads`.
use mathlib.Core.List.{Permᴰ}
use mathlib.Core.List.Permᴰ
use process_manger_alpha.Base.{
  ◌≡◌, refl, true, Option, none, some, List, [], ◌∷◌, ◌++◌, map, arith, replicate,
}
use process_manger_alpha.Text.{Text, codes, format_decimal}
use process_manger_alpha.Server.{Database, Server, rounds}
use process_manger_alpha.Server.Library.{
  Request, ask, add, message, table_of, rounds-Replies, Replies, Holds, IsSound, rounds-gone,
  insert_statement, Inserts,
}
use process_manger_alpha.Server.StartUp.{Answers, serve, start, serve-Replies, serve_no_database}
use process_manger_alpha.Client.Dialog.{
  on_init_dialog, wsa_startup, socket, connect, on_bn_clicked, button2, by_path_killing,
}
use process_manger_alpha.Server.Coalesced.{Delivery, bytes_of, rounds-coalesced}
use process_manger_alpha.Tests.Uploads.{samples, samples-Inserts}

abbrev requests : List Request
requests = add (codes "ab01") ∷ ask ∷ add (codes "cd02") ∷ ask ∷ []

start_order : Holds samples (codes "ee" ∷ []) (codes "ee" ∷ [])
start_order = (codes "ee" ∷ [], Permᴰ.refl (codes "ee" ∷ []), refl)

rounds-Replies_applied :
    (s' : Server samples) × (rounds samples
        (map message requests)
        (record { db = codes "ee" ∷ []; sent = [] })
      ≡ some s')
    × Holds samples (codes "ee" ∷ codes "ab01" ∷ codes "cd02" ∷ []) s'.db
    × Replies requests (codes "ee" ∷ []) [] s'.sent
rounds-Replies_applied =
    rounds-Replies samples requests (codes "ee" ∷ []) (record { db = codes "ee" ∷ []; sent = [] })
      samples-Inserts start_order (ground arith) (omega arith)

rounds-gone_example :
    (s' : Server samples) × (rounds samples
        (replicate 3 [])
        (record { db = codes "ee" ∷ []; sent = [] })
      ≡ some s')
    × (s'.sent ≡ replicate 3 (codes "ee") ++ [])
    × (s'.db ≡ codes "ee" ∷ [])
rounds-gone_example =
    rounds-gone samples 3 (record { db = codes "ee" ∷ []; sent = [] }) refl (omega arith)

-- A database of one table, which is there or not.
abbrev tables : Database
tables = record {
  Db = Option (List Text);
  mysql_query = λ sql db. some (elim db [ none ↦ [] | some ss ↦ samples.mysql_query sql ss ]);
  selected = λ db. elim db [ none ↦ none | some ss ↦ samples.selected ss ];
}

tables-Inserts : Inserts tables
tables-Inserts = record { inserted = inserted }
  where
    inserted :
        (s : Text) (db : Option (List Text)) (library : List Text)
        → IsSound s
        → tables.selected db ≡ some (table_of library)
        → (library' : List Text) × (tables.selected (tables.mysql_query (insert_statement s) db)
            ≡ some (table_of library'))
          × Permᴰ library' (library ++ s ∷ [])
    inserted s none library sound e = cc
    inserted s (some ss) library sound e = samples-Inserts.inserted s ss library sound e

abbrev connected : Answers
connected = record { mysql_errno = 0; wsa_startup = 0; socket_valid = true; bound = true }

serve_no_database_applied :
    ((start tables (record connected { mysql_errno = 2003 }) none).0 ≡ format_decimal 2003 ∷ [])
    × (serve tables (record connected { mysql_errno = 2003 }) none (replicate 2 (message ask))
        ≡ some (record { db = none; sent = [] }))
serve_no_database_applied =
    serve_no_database tables 2 (record connected { mysql_errno = 2003 }) none refl refl refl refl
      refl

serve-Replies_example :
    (s' : Server tables) × (serve tables connected none (map message requests) ≡ some s')
    × Holds tables (codes "ab01" ∷ codes "cd02" ∷ []) s'.db
    × Replies requests [] [] s'.sent
serve-Replies_example =
    serve-Replies tables requests connected none tables-Inserts refl refl refl refl refl
      (ground arith) (omega arith)

init_dialog_connects :
    on_init_dialog (record { startup = 0; handle = some 7 }) none
    ≡ (wsa_startup ∷ socket ∷ connect 7 (codes "127.0.0.1") 6666 ∷ [], some 7)
unfolding on_init_dialog
init_dialog_connects = refl

by_path_cancelled : on_bn_clicked button2 none ≡ by_path_killing []
unfolding on_bn_clicked
by_path_cancelled = refl

-- Two uploads that come together, and then a request.
abbrev deliveries : List Delivery
deliveries =
    record { request = add (codes "ab01"); behind = message (add (codes "cd02")) }
    ∷ record { request = ask; behind = [] }
    ∷ []

rounds-coalesced_example :
    (s' : Server samples) × (rounds samples
        (map bytes_of deliveries)
        (record { db = codes "ee" ∷ []; sent = [] })
      ≡ some s')
    × Holds samples (codes "ee" ∷ codes "ab01" ∷ []) s'.db
    × Replies (add (codes "ab01") ∷ ask ∷ []) (codes "ee" ∷ []) [] s'.sent
rounds-coalesced_example =
    rounds-coalesced samples deliveries (codes "ee" ∷ [])
      (record { db = codes "ee" ∷ []; sent = [] }) samples-Inserts start_order (ground arith)
      (omega arith)
