-- ===== src/Server.antt =====
-- The server of the virus library: TheVirusServer/TheVirusServer.cpp. MySQL is a parameter: what a
-- statement does to the database, and the rows that the query reports. Setting up the database and
-- the socket is left out; what `recv` receives in a round is its argument.
pub mod Rounds
pub mod Library
pub mod StartUp
pub mod Coalesced
use process_manger_alpha.Base.{
  ℕ, zero, suc, ◌+◌, ◌<◌, ◌==◌, Bool, true, false, ltb, if◌then◌else◌, Option, none, some, List, [],
  ◌∷◌, ◌++◌, length, take, drop, replicate,
}
use process_manger_alpha.Text.{Text, codes, cstring}
use process_manger_alpha.Pe.Image.{Image, dword_at}

infixl 5 ◌>>=◌
abbrev pub ◌>>=◌ : {A B : Type 0} → Option A → (A → Option B) → Option B
none >>= f = none
some a >>= f = f a

-- UpdateVirus and PayloadVirus
abbrev pub update_virus : ℕ
update_virus = 0

abbrev pub payload_virus : ℕ
payload_virus = 1

-- The database: `selected` is the result of the query, if it has one, as rows of cells that may be
-- NULL.
pub record Database : Type 1 where
  pub Db : Type 0
  pub mysql_query : Text → Db → Db
  pub selected : Db → Option (List (List (Option Text)))

-- `strcat_s(result, 1000, row[i])` for the cells of a row, and for the rows. `strcat_s` ends the
-- program when the text and its zero byte do not fit.
unfoldable pub add_cells : List (Option Text) → Text → Option Text
add_cells [] result = some result
add_cells (none ∷ cells) result = add_cells cells result
add_cells (some s ∷ cells) result =
    let rest = add_cells cells (result ++ s) in
    if ltb (length result + length s) 1000 then rest else none

unfoldable pub add_rows : List (List (Option Text)) → Text → Option Text
unfolding add_cells
add_rows [] result = some result
add_rows (cells ∷ rs) result = do longer ← add_cells cells result; add_rows rs longer

-- `char recvBuf[1000] = { 0 }; recv(clientSocket, recvBuf, 1000, 0);`
abbrev pub recv_buffer : List ℕ → List ℕ
recv_buffer received = take 1000 (received ++ replicate 1000 0)

module _ (m : Database) where
  open m use {Db, mysql_query, selected}

  pub record Server : Type 0 where
    pub db : Db
    -- what has been sent to the client, the latest first
    pub sent : List Text

  unfoldable pub do_update_virus : Server → Option Server
  do_update_virus s = elim (selected s.db) [
    | none ↦ some s
    | some rs ↦ do result ← add_rows rs []; some (record s { sent = result ∷ s.sent })
  ]

  -- `sprintf_s` ends the program when the statement and its zero byte do not fit into 1000 bytes.
  unfoldable pub do_payload_virus : List ℕ → Server → Option Server
  do_payload_virus buf s = do
    sample ← cstring buf
    let sql = codes "INSERT INTO sampletable (md5) VALUES ('" ++ sample ++ codes "')"
    if ltb (length sql) 1000 then some (record s { db = mysql_query sql s.db }) else none

  -- The body of the loop of `main`, on the buffer.
  unfoldable pub answer : List ℕ → Server → Option Server
  unfolding do_update_virus do_payload_virus
  answer buf s = do
    kind ← dword_at (record { base = 0; bytes = buf }) 0
    s' ← (if kind == update_virus then do_update_virus s else some s)
    if kind == payload_virus then do_payload_virus (drop 4 buf) s' else some s'

  unfoldable pub round : List ℕ → Server → Option Server
  unfolding answer
  round received s = answer (recv_buffer received) s

  -- The loop of `main`, over what is received.
  unfoldable pub rounds : List (List ℕ) → Server → Option Server
  unfolding round
  rounds [] s = some s
  rounds (received ∷ later) s = do s' ← round received s; rounds later s'
