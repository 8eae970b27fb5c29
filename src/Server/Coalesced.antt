-- ===== src/Server/Coalesced.antt =====
-- What the server does when a single `recv` delivers more than one message, as a stream of bytes may:
-- TheVirusServer/TheVirusServer.cpp looks at the first message in its buffer alone.
use process_manger_alpha.Base.{
  Option, ℕ, zero, suc, ◌≤◌, ◌<◌, ◌≡◌, refl, sym, ap, ◌∙◌, some, List, [], ◌∷◌, ◌++◌, map, arith,
  length, append_assoc, take, replicate, filled, All, NonZero,
}
use process_manger_alpha.Text.{Text, codes, cstring}
use process_manger_alpha.Pe.Image.{dword_at}
use process_manger_alpha.Server.{Database, Server, answer, round, rounds, ◌>>=◌}
use process_manger_alpha.Server.Rounds.{round-request, do_payload_virus-sample}
use process_manger_alpha.Server.Library.{
  Request, ask, add, message, added, concat, Replies, Holds, IsSound, Inserts, round-payload,
  insert_statement, rounds-Replies,
}

cstring-take_front :
    (m n : ℕ) (s rest : List ℕ)
    → NonZero s
    → length s < m
    → m ≤ n
    → cstring (take n (filled m s ++ rest)) ≡ some s
unfolding cstring
cstring-take_front zero n s rest h l k = absurd (omega arith)
cstring-take_front (suc m) zero s rest h l k = absurd (omega arith)
cstring-take_front (suc m) (suc n) [] rest h l k = refl
cstring-take_front (suc m) (suc n) (c ∷ s) rest (h, hs) l k =
    rw (cstring, h, cstring-take_front m n s rest hs (omega arith) (omega arith)) refl

-- What a `recv` delivers: the message of a request, and the bytes behind it.
pub record Delivery : Type 0 where
  pub request : Request
  pub behind : List ℕ

abbrev pub bytes_of : Delivery → List ℕ
bytes_of d = message d.request ++ d.behind

-- The samples of the requests go into the statement as they are.
abbrev pub IsSoundRequest : Request → Type 0
IsSoundRequest ask = Unit
IsSoundRequest (add sample) = IsSound sample

added_lem : (rs : List Request) → All IsSoundRequest rs → All IsSound (added rs)
added_lem [] h = tt
added_lem (ask ∷ rs) (sound, h) = added_lem rs h
added_lem (add sample ∷ rs) (sound, h) = (sound, added_lem rs h)

All-mapped :
    (ds : List Delivery)
    → All (λ d. IsSoundRequest d.request) ds
    → All IsSoundRequest (map (λ d. d.request) ds)
All-mapped [] h = tt
All-mapped (d ∷ ds) (sound, h) = (sound, All-mapped ds h)

messages-first :
    (ds : List Delivery) → map (λ d. message d.request) ds ≡ map message (map (λ d. d.request) ds)
messages-first [] = refl
messages-first (d ∷ ds) = ap (◌∷◌ (message d.request)) (messages-first ds)

added-IsSound :
    (ds : List Delivery)
    → All (λ d. IsSoundRequest d.request) ds
    → All IsSound (added (map (λ d. d.request) ds))
added-IsSound ds h = added_lem (map (λ d. d.request) ds) (All-mapped ds h)

module _ (m : Database) where
  open m use {selected, mysql_query}

  -- A sample is read from a longer delivery too.
  round-payload_behind :
      (sample behind : List ℕ) (s : Server m)
      → NonZero sample
      → length sample < 196
      → round m (message (add sample) ++ behind) s
        ≡ some (record s { db = mysql_query (insert_statement sample) s.db })
  unfolding round answer dword_at
  round-payload_behind sample behind s nz small =
      let buf = take 996 ((filled 196 sample ++ behind) ++ replicate 1000 0) in
      do_payload_virus-sample m s sample buf
        (ap (λ bytes. cstring (take 996 bytes))
            (append_assoc (filled 196 sample) behind (replicate 1000 0))
          ∙ cstring-take_front 196 996 sample (behind ++ replicate 1000 0) nz small (omega arith))
        (omega arith)

  round-behind :
      (r : Request) (behind : List ℕ) (s : Server m)
      → IsSoundRequest r
      → round m (message r ++ behind) s ≡ round m (message r) s
  round-behind ask behind s sound =
      (round-request m s (filled 200 (codes "0") ++ behind) refl).1
      ∙ sym (round-request m s (filled 200 (codes "0")) refl).1
  round-behind (add sample) behind s (nz, plain) =
      round-payload_behind sample behind s nz (omega (arith, plain.1))
      ∙ sym (round-payload m sample s nz (omega (arith, plain.1)))

  -- Whatever bytes follow the messages of the requests that the deliveries begin with, the server
  -- does what it does for these messages alone.
  pub rounds-behind :
      (ds : List Delivery) (s : Server m)
      → All (λ d. IsSoundRequest d.request) ds
      → rounds m (map bytes_of ds) s ≡ rounds m (map (λ d. message d.request) ds) s
  unfolding rounds
  rounds-behind [] s sound = refl
  rounds-behind (d ∷ ds) s (sound, later) = rw (round-behind d.request d.behind s sound) (
      ap {A = Server m → Option (Server m)} (λ next. round m (message d.request) s >>= next)
        (λ i s'. rounds-behind ds s' later i))

  -- When recv delivers messages together, only the first of each delivery is served: with the samples
  -- of a library in its table, deliveries that begin with requests whose samples go into the
  -- statement as they are, of less than 1000 bytes together with those that are there, leave the
  -- table with the samples of these first requests alone, and the replies are those to them
  -- alone, in each of which the samples that were there come in some order.
  pub rounds-coalesced :
      (ds : List Delivery) (library : List Text) (s : Server m)
      → Inserts m
      → Holds m library s.db
      → All (λ d. IsSoundRequest d.request) ds
      → length (concat (library ++ added (map (λ d. d.request) ds))) < 1000
      → let first = map (λ d. d.request) ds in
        (s' : Server m) × (rounds m (map bytes_of ds) s ≡ some s')
        × Holds m (library ++ added first) s'.db
        × Replies first library s.sent s'.sent
  rounds-coalesced ds library s ins holds sound small =
      let first = map (λ d. d.request) ds in
      let (s', runs, table, sent) =
        rounds-Replies m first library s ins holds (added-IsSound ds sound) small in
      (
        s',
        rounds-behind ds s sound ∙ ap (λ ms. rounds m ms s) (messages-first ds) ∙ runs,
        table,
        sent,
      )
