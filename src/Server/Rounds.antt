-- ===== src/Server/Rounds.antt =====
-- What a round of the server does, for the messages of the client and for none.
use process_manger_alpha.Base.{
  ℕ, ◌+◌, ◌≤◌, ◌<◌, true, ltb, Bool-cases, inl, inr, Option, none, some, List, [], ◌∷◌, ◌++◌, ◌≡◌,
  refl, ap, ◌∙◌, arith, length, length-append, append_assoc, append-nil, lt→ltb, ltb→lt,
}
use process_manger_alpha.Text.{Text, codes, cstring}
use process_manger_alpha.Pe.Image.{dword_at}
use process_manger_alpha.Server.{
  Database, add_cells, add_rows, Server, do_update_virus, do_payload_virus, answer, round, ◌>>=◌,
}

-- The texts of the cells, one after another, with nothing between them.
abbrev pub joined_cells : List (Option Text) → Text
joined_cells [] = []
joined_cells (none ∷ cells) = joined_cells cells
joined_cells (some s ∷ cells) = s ++ joined_cells cells

abbrev pub joined : List (List (Option Text)) → Text
joined [] = []
joined (cells ∷ rs) = joined_cells cells ++ joined rs

add_cells-joined :
    (cells : List (Option Text)) (result : Text)
    → length result + length (joined_cells cells) < 1000
    → add_cells cells result ≡ some (result ++ joined_cells cells)
unfolding add_cells
add_cells-joined [] result h = rw (append-nil result) refl
add_cells-joined (none ∷ cells) result h = add_cells-joined cells result h
add_cells-joined (some s ∷ cells) result h =
    let fits : ltb (length result + length s) 1000 ≡ true =
      lt→ltb _ _ (omega (arith, length-append s (joined_cells cells))) in
    rw (add_cells, fits)
      (add_cells-joined cells (result ++ s)
          (omega (arith, length-append s (joined_cells cells), length-append result s))
        ∙ ap some (append_assoc result s (joined_cells cells)))

add_rows-joined :
    (rs : List (List (Option Text))) (result : Text)
    → length result + length (joined rs) < 1000
    → add_rows rs result ≡ some (result ++ joined rs)
unfolding add_rows
add_rows-joined [] result h = rw (append-nil result) refl
add_rows-joined (cells ∷ rs) result h =
    let first =
      add_cells-joined cells result
        (omega (arith, length-append (joined_cells cells) (joined rs))) in
    rw (first, ◌>>=◌)
      (add_rows-joined rs (result ++ joined_cells cells) (
          omega (
            arith,
            length-append (joined_cells cells) (joined rs),
            length-append result (joined_cells cells),
          ))
        ∙ ap some (append_assoc result (joined_cells cells) (joined rs)))

add_cells-overflow :
    (cells : List (Option Text)) (result : Text)
    → length result < 1000
    → 1000 ≤ length result + length (joined_cells cells)
    → add_cells cells result ≡ none
unfolding add_cells
add_cells-overflow [] result l h = absurd (omega arith)
add_cells-overflow (none ∷ cells) result l h = add_cells-overflow cells result l h
add_cells-overflow (some s ∷ cells) result l h =
    elim (Bool-cases (ltb (length result + length s) 1000)) [
      | inl fits ↦
          rw (add_cells, fits)
            (add_cells-overflow cells (result ++ s)
              (omega (arith, ltb→lt _ _ fits, length-append result s))
              (omega (arith, length-append s (joined_cells cells), length-append result s)))
      | inr full ↦ rw (add_cells, full) refl
    ]

add_rows-overflow :
    (rs : List (List (Option Text))) (result : Text)
    → length result < 1000
    → 1000 ≤ length result + length (joined rs)
    → add_rows rs result ≡ none
unfolding add_rows
add_rows-overflow [] result l h = absurd (omega arith)
add_rows-overflow (cells ∷ rs) result l h =
    elim (Bool-cases (ltb (length result + length (joined_cells cells)) 1000)) [
      | inl fits ↦
          let small = ltb→lt (length result + length (joined_cells cells)) 1000 fits in
          rw (add_cells-joined cells result small, ◌>>=◌)
            (add_rows-overflow rs (result ++ joined_cells cells)
              (omega (arith, length-append result (joined_cells cells)))
              (omega (
                arith,
                length-append (joined_cells cells) (joined rs),
                length-append result (joined_cells cells),
              )))
      | inr full ↦ rw (add_cells-overflow cells result l (ground arith), ◌>>=◌) refl
    ]

module _ (m : Database) where
  open m use {Db, mysql_query, selected}

  -- A round in which nothing is received, and one for a message of the kind 0.
  pub round-request :
      (s : Server m) (rest : List ℕ) {o : Option (Server m)}
      → do_update_virus m s ≡ o
      → (round m [] s ≡ o) × (round m (0 ∷ 0 ∷ 0 ∷ 0 ∷ rest) s ≡ o)
  unfolding round answer dword_at
  round-request s rest {o} e =
      let same : (do_update_virus m s >>= some) ≡ o =
        elim (do_update_virus m s) as (λ x. x ≡ o → (x >>= some) ≡ o) [
          | none ↦ λ h. h
          | some a ↦ λ h. h
        ]
          e in
      (same, same)

  -- An update request is answered with the texts of all the cells that are not NULL, in order and
  -- with nothing between them, if they take less than 1000 bytes together; the database stays as it
  -- is. A round in which nothing is received, as when the client has gone, is taken for such a
  -- request.
  pub round-update :
      (s : Server m) (rest : List ℕ) {rs : List (List (Option Text))}
      → selected s.db ≡ some rs
      → length (joined rs) < 1000
      → (round m [] s ≡ some (record s { sent = joined rs ∷ s.sent }))
        × (round m (0 ∷ 0 ∷ 0 ∷ 0 ∷ rest) s ≡ some (record s { sent = joined rs ∷ s.sent }))
  unfolding do_update_virus
  round-update s rest {rs} e h =
      round-request s rest
        (rw (do_update_virus, e) (rw (add_rows-joined rs [] (omega arith), ◌>>=◌) refl))

  -- A sample of less than 900 bytes is put into the statement as it is, up to its first zero byte,
  -- with no escaping of quotes; the statement is run, and nothing is sent back.
  pub do_payload_virus-sample :
      (s : Server m) (sample buf : List ℕ)
      → cstring buf ≡ some sample
      → length sample < 900
      → do_payload_virus m buf s
        ≡ some (record s {
          db =
              mysql_query
                (codes "INSERT INTO sampletable (md5) VALUES ('" ++ sample ++ codes "')")
                s.db;
        })
  unfolding do_payload_virus
  do_payload_virus-sample s sample buf e h =
      let sql = codes "INSERT INTO sampletable (md5) VALUES ('" ++ sample ++ codes "')" in
      let fits : ltb (length sql) 1000 ≡ true =
        lt→ltb (length sql) 1000 (omega (arith, length-append sample (codes "')"))) in
      rw (e, ◌>>=◌, fits) refl

  -- With 1000 bytes or more in the library, an update request, or a client that has gone, ends the
  -- server.
  pub round-overflow :
      (s : Server m) (rest : List ℕ) {rs : List (List (Option Text))}
      → selected s.db ≡ some rs
      → 1000 ≤ length (joined rs)
      → (round m [] s ≡ none) × (round m (0 ∷ 0 ∷ 0 ∷ 0 ∷ rest) s ≡ none)
  unfolding do_update_virus
  round-overflow s rest {rs} e h = round-request s rest (
      rw (do_update_virus, e)
        (rw (add_rows-overflow rs [] (omega arith) (omega arith), ◌>>=◌) refl))
