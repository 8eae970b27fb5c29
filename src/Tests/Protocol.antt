-- ===== src/Tests/Protocol.antt =====
-- The theorems on the server at a small database: the statements run, with two samples in the table.
use process_manger_alpha.Base.{Option, some, none, List, [], ◌∷◌, ◌++◌, ◌≡◌, refl, arith, replicate}
use process_manger_alpha.Text.{Text, codes, cstring}
use process_manger_alpha.Server.{Database, Server, round, do_payload_virus}
use process_manger_alpha.Server.Rounds.{
  joined, round-update, round-overflow, do_payload_virus-sample,
}

abbrev table : List (List (Option Text)) → Database
table rs = record { Db = List Text; mysql_query = λ sql db. sql ∷ db; selected = λ db. some rs }

abbrev samples : List (List (Option Text))
samples = (some (codes "ab01") ∷ []) ∷ (none ∷ []) ∷ (some (codes "cd02") ∷ []) ∷ []

abbrev fresh : (rs : List (List (Option Text))) → Server (table rs)
fresh rs = record { db = []; sent = [] }

round-update_applied :
    (round (table samples) [] (fresh samples)
      ≡ some (record { db = []; sent = joined samples ∷ [] }))
    × (round (table samples) (0 ∷ 0 ∷ 0 ∷ 0 ∷ codes "0") (fresh samples)
        ≡ some (record { db = []; sent = joined samples ∷ [] }))
round-update_applied = round-update (table samples) (fresh samples) (codes "0") refl (omega arith)

abbrev long_row : List (List (Option Text))
long_row = (some (replicate 1000 b'a') ∷ []) ∷ []

round-overflow_example :
    (round (table long_row) [] (fresh long_row) ≡ none)
    × (round (table long_row) (0 ∷ 0 ∷ 0 ∷ 0 ∷ codes "0") (fresh long_row) ≡ none)
round-overflow_example =
    round-overflow (table long_row) (fresh long_row) (codes "0") refl (omega arith)

do_payload_virus-sample_applied :
    do_payload_virus (table samples) (codes "a'b" ++ 0 ∷ codes "rest") (fresh samples)
    ≡ some (record {
      db = (codes "INSERT INTO sampletable (md5) VALUES ('" ++ codes "a'b" ++ codes "')") ∷ [];
      sent = [];
    })
unfolding cstring
do_payload_virus-sample_applied =
    do_payload_virus-sample (table samples) (fresh samples) (codes "a'b")
      (codes "a'b" ++ 0 ∷ codes "rest") refl (omega arith)
