-- ===== src/Server/Library.antt =====
-- The library as a list of samples, and the rounds of the server as what they do to it.
use mathlib.Core.List.{Permᴰ}
use mathlib.Core.List.Permᴰ
use process_manger_alpha.Base.{
  ℕ, zero, suc, ◌+◌, ◌≤◌, ◌<◌, ◌==◌, ◌≡◌, refl, sym, ap, subst, ◌∙◌, false, Option, some, List, [],
  ◌∷◌, ◌++◌, map, arith, length, length-append, append_assoc, append-nil, take, take-replicate,
  replicate, filled, filled-filled, length-filled, All, NonZero,
}
use process_manger_alpha.Text.{Text, codes, cstring}
use process_manger_alpha.Text.RoundTrip.{cstring-filled}
use process_manger_alpha.Pe.Image.{dword_at}
use process_manger_alpha.Server.{Database, Server, answer, round, rounds, ◌>>=◌}
use process_manger_alpha.Server.Rounds.{joined, round-update, do_payload_virus-sample}

-- The statement by which the server stores a sample.
abbrev pub insert_statement : Text → Text
insert_statement sample = codes "INSERT INTO sampletable (md5) VALUES ('" ++ sample ++ codes "')"

pub round-payload :
    (m : Database) (sample : List ℕ) (s : Server m)
    → NonZero sample
    → length sample < 196
    → round m (1 ∷ 0 ∷ 0 ∷ 0 ∷ filled 196 sample) s
      ≡ some (record s { db = m.mysql_query (insert_statement sample) s.db })
unfolding round answer dword_at
round-payload m sample s nz small =
    let buf = filled 196 sample ++ replicate 1000 0 in
    let received : take 996 buf ≡ filled 996 sample =
      take-replicate 996 1000 (filled 196 sample) (omega (arith, length-filled 196 sample))
        (omega arith)
      ∙ filled-filled 196 996 sample (omega arith) (omega arith) in
    do_payload_virus-sample m s sample (take 996 buf)
      (ap cstring received ∙ cstring-filled 996 sample nz (omega arith)) (omega arith)

-- A text that stands between quotes as it is, and fits the column VARCHAR(100).
abbrev pub IsPlain : Text → Type 0
IsPlain s = All (λ c. ((c == b'\'') ≡ false) × ((c == b'\\') ≡ false)) s × (length s ≤ 100)

-- One that also ends where its zero byte is.
abbrev pub IsSound : Text → Type 0
IsSound s = NonZero s × IsPlain s

-- The table that holds a library: a sample in each row.
abbrev pub table_of : List Text → List (List (Option Text))
table_of [] = []
table_of (s ∷ ss) = (some s ∷ []) ∷ table_of ss

-- MySQL: the statement adds a row with the text. The query names no order, so it may then report the
-- rows in another one.
pub record Inserts (m : Database) : Type 0 where
  pub inserted :
      (s : Text) (db : m.Db) (library : List Text)
      → IsSound s
      → m.selected db ≡ some (table_of library)
      → (library' : List Text) × (m.selected (m.mysql_query (insert_statement s) db)
          ≡ some (table_of library'))
        × Permᴰ library' (library ++ s ∷ [])

-- The table holds the samples of this library, in some order.
abbrev pub Holds : (m : Database) → List Text → m.Db → Type 0
Holds m library db =
    (order : List Text) × Permᴰ order library × (m.selected db ≡ some (table_of order))

-- The abstract library: what the clients ask for, in their terms.
pub data Request : Type 0 where
  ask : Request
  add : Text → Request

-- The messages of the client.
abbrev pub message : Request → List ℕ
message ask = 0 ∷ 0 ∷ 0 ∷ 0 ∷ filled 200 (codes "0")
message (add sample) = 1 ∷ 0 ∷ 0 ∷ 0 ∷ filled 196 sample

abbrev pub added : List Request → List Text
added [] = []
added (ask ∷ rs) = added rs
added (add sample ∷ rs) = sample ∷ added rs

abbrev pub concat : List Text → Text
concat [] = []
concat (s ∷ ss) = s ++ concat ss

-- What has been sent when the requests are done, the latest first, from a library and what was sent
-- before: each reply is the samples that were there when it was asked for, in some order.
abbrev pub Replies : List Request → List Text → List Text → List Text → Type 0
Replies [] library sent sent' = sent' ≡ sent
Replies (ask ∷ rs) library sent sent' =
    (order : List Text) × Permᴰ order library × Replies rs library (concat order ∷ sent) sent'
Replies (add sample ∷ rs) library sent sent' = Replies rs (library ++ sample ∷ []) sent sent'

joined-table_of : (ss : List Text) → joined (table_of ss) ≡ concat ss
joined-table_of [] = refl
joined-table_of (s ∷ ss) = rw (append-nil s, joined-table_of ss) refl

length-concat :
    (xs ys : List Text) → length (concat (xs ++ ys)) ≡ length (concat xs) + length (concat ys)
length-concat [] ys = omega arith
length-concat (x ∷ xs) ys =
    omega
      (arith, length-concat xs ys, length-append x (concat (xs ++ ys)), length-append x (concat xs))

concat-Perm : {xs ys : List Text} → Permᴰ xs ys → length (concat xs) ≡ length (concat ys)
concat-Perm (Permᴰ.nil) = refl
concat-Perm (Permᴰ.cons {a = x} {b = y} {l₁ = xs} {l₂ = ys} e p) =
    omega
      (arith, concat-Perm p, length-append x (concat xs), length-append y (concat ys), ap length e)
concat-Perm (Permᴰ.swap {a = x} {b = y} {a' = x'} {b' = y'} {l} e e') = omega (
  arith,
  length-append x (y ++ concat l),
  length-append y (concat l),
  length-append x' (y' ++ concat l),
  length-append y' (concat l),
  ap length e,
  ap length e',
)
concat-Perm (Permᴰ.trans p q) = concat-Perm p ∙ concat-Perm q

none_else : {xs ys : List Text} → Permᴰ xs ys → xs ≡ [] → ys ≡ []
none_else (Permᴰ.nil) h = refl
none_else (Permᴰ.cons e p) h = cc
none_else (Permᴰ.swap e e') h = cc
none_else (Permᴰ.trans p q) h = none_else q (none_else p h)

-- There is one order only of one sample.
pub one_order : {xs ys : List Text} (s : Text) → Permᴰ xs ys → xs ≡ s ∷ [] → ys ≡ s ∷ []
one_order s (Permᴰ.nil) h = cc
one_order s (Permᴰ.cons {l₂ = ys} e p) h = let empty = none_else p cc in cc
one_order s (Permᴰ.swap e e') h = cc
one_order s (Permᴰ.trans p q) h = one_order s q (one_order s p h)

replicate-append :
    (n : ℕ) (x : Text) (ys : List Text) → replicate n x ++ x ∷ ys ≡ x ∷ (replicate n x ++ ys)
replicate-append zero x ys = refl
replicate-append (suc n) x ys = ap (◌∷◌ x) (replicate-append n x ys)

module _ (m : Database) where
  open m use {Db, mysql_query, selected}

  -- The server implements the library, when MySQL inserts a row for the statement: with the samples
  -- of a library in its table, and requests to add samples that go into the statement as they are,
  -- of less than 1000 bytes together with those that are there, the rounds for the messages of the
  -- requests all end, the table then holds the samples that are there and those that were added, and
  -- each reply is the samples that were there when it was asked for, in some order.
  pub rounds-Replies :
      (rs : List Request) (library : List Text) (s : Server m)
      → Inserts m
      → Holds m library s.db
      → All IsSound (added rs)
      → length (concat (library ++ added rs)) < 1000
      → (s' : Server m) × (rounds m (map message rs) s ≡ some s')
        × Holds m (library ++ added rs) s'.db
        × Replies rs library s.sent s'.sent
  unfolding rounds
  rounds-Replies [] library s ins (order, same, holds) sound small =
      (s, refl, (order, subst (λ l. Permᴰ order l) (sym (append-nil library)) same, holds), refl)
  rounds-Replies (ask ∷ rs) library s ins (order, same, holds) sound small =
      let fits : length (joined (table_of order)) < 1000 = omega (
        arith,
        ap length (joined-table_of order),
        concat-Perm same,
        length-concat library (added rs),
      ) in
      let reply = joined-table_of order in
      let step : round m (message ask) s ≡ some (record s { sent = concat order ∷ s.sent }) =
        (round-update m s (filled 200 (codes "0")) holds fits).1
        ∙ ap {A = Text} (λ r. some (record s { sent = r ∷ s.sent })) reply in
      let s₁ = record s { sent = concat order ∷ s.sent } in
      let (s', runs, holds', sent) =
        rounds-Replies rs library s₁ ins (order, same, holds) sound small in
      (s', rw (step, ◌>>=◌) runs, holds', (order, same, sent))
  rounds-Replies (add sample ∷ rs) library s ins (order, same, holds) ((nz, plain), sound) small =
      let step = round-payload m sample s nz (omega (arith, plain.1)) in
      let s₁ = record s { db = mysql_query (insert_statement sample) s.db } in
      let (order', holds₁, more) = ins.inserted sample s.db order (nz, plain) holds in
      let same₁ = Permᴰ.trans more (Permᴰ.append_right (sample ∷ []) same) in
      let moved = append_assoc library (sample ∷ []) (added rs) in
      let (s', runs, holds', sent) =
        rounds-Replies rs (library ++ sample ∷ []) s₁ ins (order', same₁, holds₁) sound
          (omega (arith, ap (λ l. length (concat l)) moved)) in
      (s', rw (step, ◌>>=◌) runs, subst (λ l. Holds m l s'.db) moved holds', sent)

  -- When the client has gone, the loop never comes to rest: with less than 1000 bytes in the table,
  -- any number of rounds in which nothing is received all end, and each of them sends the table.
  pub rounds-gone :
      (n : ℕ) (s : Server m) {rs : List (List (Option Text))}
      → selected s.db ≡ some rs
      → length (joined rs) < 1000
      → (s' : Server m) × (rounds m (replicate n []) s ≡ some s')
        × (s'.sent ≡ replicate n (joined rs) ++ s.sent)
        × (s'.db ≡ s.db)
  unfolding rounds
  rounds-gone zero s e h = (s, refl, refl, refl)
  rounds-gone (suc n) s {rs} e h =
      let step = (round-update m s [] e h).0 in
      let (s', runs, sent, same) = rounds-gone n (record s { sent = joined rs ∷ s.sent }) e h in
      (s', rw (step, ◌>>=◌) runs, sent ∙ replicate-append n (joined rs) s.sent, same)
