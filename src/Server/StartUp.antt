-- ===== src/Server/StartUp.antt =====
-- How the server starts: InitDataBase and the first part of `main`. What MySQL and WinSock answer is
-- an argument; `listen` and `accept` are not looked at. InitDataBase has no `return` at its end, and
-- what it returns is not looked at either.
use mathlib.Core.List.{Permᴰ}
use process_manger_alpha.Base.{
  ℕ, ◌==◌, ◌≡◌, refl, Bool, true, false, if◌then◌else◌, ◌<◌, zero, suc, filled, Option, none, some,
  List, [], ◌∷◌, ◌++◌, map, replicate, length, All,
}
use process_manger_alpha.Text.{Text, codes, format_decimal}
use process_manger_alpha.Server.{Database, Server, rounds, do_update_virus, ◌>>=◌}
use process_manger_alpha.Server.Rounds.{round-request}
use process_manger_alpha.Server.Library.{
  Request, ask, message, added, Replies, Holds, concat, IsSound, Inserts, rounds-Replies,
}

pub record Answers : Type 0 where
  pub mysql_errno : ℕ
  pub wsa_startup : ℕ
  -- whether `socket` gives a socket, and whether `bind` succeeds
  pub socket_valid : Bool
  pub bound : Bool

abbrev blanks : ℕ → Text
blanks n = replicate n b' '

abbrev tabs : ℕ → Text
tabs n = replicate n 9

abbrev pub create_table_query : Text
create_table_query =
    codes "CREATE TABLE IF NOT EXISTS sampleTable("
    ++ blanks 18
    ++ tabs 3
    ++ codes "sid INT NOT NULL PRIMARY KEY AUTO_INCREMENT,"
    ++ blanks 10
    ++ tabs 3
    ++ codes "md5 VARCHAR(100) NOT NULL"
    ++ blanks 29
    ++ tabs 2
    ++ codes ")"

module _ (m : Database) where
  open m use {Db, mysql_query, selected}

  -- What is printed, and the database.
  unfoldable pub init_data_base : Answers → Db → List Text × Db
  init_data_base a db =
      if a.mysql_errno == 0
      then ([], mysql_query create_table_query db)
      else (format_decimal a.mysql_errno ∷ [], db)

  -- What is printed, and the server at the start of its loop, unless the program ends before.
  unfoldable pub start : Answers → Db → List Text × Option (Server m)
  unfolding init_data_base
  start a db =
      let (printed, db') = init_data_base a db in
      if a.wsa_startup == 0
      then if a.socket_valid
        then if a.bound
          then (printed, some (record { db = db'; sent = [] }))
          else (printed ++ codes "绑定失败" ∷ [], none)
        else (printed ++ codes "Socket 创建失败" ∷ [], none)
      else (printed ++ codes "初始化失败" ∷ [], none)

  -- `main`, on what is received.
  unfoldable pub serve : Answers → Db → List (List ℕ) → Option (Server m)
  unfolding start
  serve a db received = do s ← (start a db).1; rounds m received s

  -- A start at which nothing fails, on a database whose table is empty once it is created: requests
  -- that add samples that go into the statement as they are, of less than 1000 bytes together, are
  -- all served, and the table then holds the samples that were added, and each reply is the samples
  -- that were there when it was asked for, both in some order.
  pub serve-Replies :
      (rs : List Request) (a : Answers) (db : Db)
      → Inserts m
      → a.mysql_errno ≡ 0
      → a.wsa_startup ≡ 0
      → a.socket_valid ≡ true
      → a.bound ≡ true
      → selected (mysql_query create_table_query db) ≡ some []
      → All IsSound (added rs)
      → length (concat (added rs)) < 1000
      → (s' : Server m) × (serve a db (map message rs) ≡ some s')
        × Holds m (added rs) s'.db
        × Replies rs [] [] s'.sent
  unfolding serve start init_data_base
  serve-Replies rs a db ins e₁ e₂ e₃ e₄ empty sound small =
      let s : Server m = record { db = mysql_query create_table_query db; sent = [] } in
      let (s', runs, holds, sent) =
        rounds-Replies m rs [] s ins ([], Permᴰ.nil, empty) sound small in
      (s', rw (e₁, e₂, e₃, e₄, ◌>>=◌) runs, holds, sent)

  rounds-unanswered :
      (n : ℕ) (s : Server m)
      → selected s.db ≡ none
      → rounds m (replicate n (message ask)) s ≡ some s
  unfolding rounds do_update_virus
  rounds-unanswered zero s e = refl
  rounds-unanswered (suc n) s e =
      rw
        (
          (round-request m s (filled 200 (codes "0")) {o = some s}
              (rw (do_update_virus, e) refl)).1,
          ◌>>=◌,
        )
        (rounds-unanswered n s e)

  -- A start at which MySQL fails and WinSock does not: the error is printed and the server serves all
  -- the same. While its queries have no result, any number of update requests are taken and none is
  -- answered.
  pub serve_no_database :
      (n : ℕ) (a : Answers) (db : Db)
      → a.mysql_errno == 0 ≡ false
      → a.wsa_startup ≡ 0
      → a.socket_valid ≡ true
      → a.bound ≡ true
      → selected db ≡ none
      → ((start a db).0 ≡ format_decimal a.mysql_errno ∷ [])
        × (serve a db (replicate n (message ask)) ≡ some (record { db = db; sent = [] }))
  unfolding serve start init_data_base
  serve_no_database n a db e₁ e₂ e₃ e₄ none_selected = (
    rw (e₁, e₂, e₃, e₄) refl,
    rw (e₁, e₂, e₃, e₄, ◌>>=◌) (rounds-unanswered n (record { db = db; sent = [] }) none_selected),
  )
