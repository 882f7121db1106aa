-- ===== src/Server/Invariant/Reading/Events.antt =====
-- engine/src/main.cc: one event of a client, its socket ready to be read, to be written, or both.
use poker_epoll.Base.{
  Outcome, ℕ, ◌*◌, ◌<◌, ◌≡◌, ◌≢◌, refl, subst, insert_cases, ◌⊎◌, List, [], ◌∷◌, drop, Option, none,
  some, Bool, true, false, lookup, lookup-insert, has_key, insert, arith, u64_size, done, ◌>>=◌,
  Returns, Returns->>=, Option-cases, Bool-cases, inl, inr,
}
use poker_epoll.Rules.{PlayerId, buy_in}
use poker_epoll.Table.Environment.{IsLawful}
use poker_epoll.Server.{Conn, Server, ServerEnv}
use poker_epoll.Server.Connections.{handle_close}
use poker_epoll.Server.Loop.{
  read_part, write_part, while_out, write_loop, wrote, finish, client_event, ReadResult,
  WriteResults, written, full, write_error,
}
use poker_epoll.Server.Invariant.{IsServer}
use poker_epoll.Server.Publishing.{update_interest}
use poker_epoll.Server.Invariant.Traffic.{AllHear, Hears, update_interest-Hears}
use poker_epoll.Server.Invariant.Reading.{Around, Listens, seat_kept, ReadDown}
use poker_epoll.Server.Invariant.Reading.Loops.{Remains, closed-Remains, read_loop-Listens}

wrote-Remains :
    (pid : PlayerId) (before : Server) (n : ℕ) (s : Server)
    → Remains pid before (true, s)
    → Remains pid before (true, wrote pid n s)
unfolding wrote
wrote-Remains pid before n s (a, here, gone) = elim (Option-cases (lookup pid s.connections)) [
  | inl none_there ↦ absurd (ground (arith, here refl))
  | inr (conn, known) ↦
      let conn' = record conn { out = drop n conn.out } in
      rw (known, wrote)
        (
          seat_kept pid before s conn conn' a known
              (record { player_id = refl; table_id = refl; is_dead = refl; pending = λ q. q }),
          (λ h. ground (arith, lookup-insert pid pid conn' s.connections)),
          λ h. cc,
        )
]

while_out-Remains :
    (pid : PlayerId) (before s : Server)
    → Remains pid before (true, s)
    → (next : Outcome (Bool × Server)) → Returns (Remains pid before) next
    → Returns (Remains pid before) (while_out pid s next)
while_out-Remains pid before s (a, here, gone) next then_next =
    elim (Option-cases (lookup pid s.connections)) [
      | inl gone ↦ absurd (ground (arith, here refl))
      | inr (conn, known) ↦ rw (known, Returns) (out conn.out)
    ]
  where
    out :
        (bytes : List ℕ)
        → Returns (Remains pid before) (elim bytes [ [] ↦ done (true, s) | b ∷ more ↦ next ])
    out [] = (a, here, gone)
    out (b ∷ more) = then_next

-- The write loop ends.
write_loop-Remains :
    (pid : PlayerId) (before : Server) (writes : WriteResults) (s : Server)
    → Remains pid before (true, s)
    → Returns (Remains pid before) (write_loop pid writes s)
unfolding write_loop
write_loop-Remains pid before full s v = while_out-Remains pid before s v _ v
write_loop-Remains pid before write_error s v =
    while_out-Remains pid before s v _ (closed-Remains pid before s v.0)
write_loop-Remains pid before (written n rest) s v =
    while_out-Remains pid before s v _
      (write_loop-Remains pid before rest (wrote pid n s) (wrote-Remains pid before n s v))

-- The server when an event is over, from what it was before: it is in order, the counters are what they
-- were, the others who were connected still are, and every connection asks epoll for what it needs
-- if every connection did.
pub record IsLeft (pid : PlayerId) (before s : Server) : Type 0 where
  pub server : IsServer s
  pub next : s.next_player_id ≡ before.next_player_id
  pub tables : s.next_table_id ≡ before.next_table_id
  pub others :
      (p : PlayerId)
      → p ≢ pid
      → has_key p before.connections ≡ true
      → has_key p s.connections ≡ true
  pub hears : AllHear none before.connections → AllHear none s.connections

-- The connection of the player is gone.
gone-IsLeft :
    (pid : PlayerId) (before s : Server)
    → Around pid before s
    → lookup pid s.connections ≡ none
    → IsLeft pid before s
gone-IsLeft pid before s a gone = record {
  server = a.server;
  next = a.next;
  tables = a.tables;
  others = a.others;
  hears = λ h p c e other. a.hears h p c e (λ same. ground (arith, same, gone, e));
}

-- The connection of the player stays, and epoll is asked for what it needs.
stays-IsLeft :
    (pid : PlayerId) (before s : Server) (conn : Conn)
    → Around pid before s
    → lookup pid s.connections ≡ some conn
    → IsLeft pid before (record s { connections = insert pid (update_interest conn) s.connections })
unfolding update_interest
stays-IsLeft pid before s conn a known =
    let kept =
      seat_kept pid before s conn (update_interest conn) a known
        (record { player_id = refl; table_id = refl; is_dead = refl; pending = λ q. q }) in
    record {
      server = kept.server;
      next = kept.next;
      tables = kept.tables;
      others = kept.others;
      hears = λ h p c e other. elim (insert_cases p pid (update_interest conn) c s.connections e) [
        | inl (here, same) ↦ subst Hears same (update_interest-Hears conn)
        | inr (away, e') ↦ a.hears h p c e' (λ same. ground (arith, same, away))
      ];
    }

finish-IsLeft :
    (pid : PlayerId) (before : Server) (r : Bool × Server)
    → Remains pid before r
    → Returns (IsLeft pid before) (finish pid r)
unfolding finish
finish-IsLeft pid before (false, s) (a, here, gone) = gone-IsLeft pid before s a (gone refl)
finish-IsLeft pid before (true, s) (a, here, gone) =
    elim (Option-cases (lookup pid s.connections)) [
      | inl none_there ↦ absurd (ground (arith, here refl))
      | inr (conn, known) ↦ elim (Bool-cases conn.is_dead) [
        | inr alive ↦ rw (known, finish) (simp alive (stays-IsLeft pid before s conn a known))
        | inl dead ↦
            let (a', there, closed) = closed-Remains pid before s a in
            rw (known, finish)
              (rw dead (gone-IsLeft pid before (handle_close pid s) a' (closed refl)))
      ]
    ]

write_part-Remains :
    (pid : PlayerId) (before : Server) (writes : Option WriteResults) (r : Bool × Server)
    → Remains pid before r
    → Returns (Remains pid before) (write_part pid writes r)
unfolding write_part
write_part-Remains pid before writes (false, s) v = v
write_part-Remains pid before none (true, s) v = v
write_part-Remains pid before (some ws) (true, s) v = write_loop-Remains pid before ws s v

-- What is read comes to what brings the server down.
abbrev pub GoesDown : ServerEnv → PlayerId → Option (List ReadResult) → Server → Type 0
GoesDown env pid none s = ⊥
GoesDown env pid (some reads) s = ReadDown env pid reads s

module _ (env : ServerEnv) (lawful : IsLawful env.at_tables) where
  read_part-Remains :
      {pid : PlayerId} {before : Server} (reads : Option (List ReadResult)) (s : Server)
      → Listens pid before s
      → buy_in * before.next_player_id < u64_size
      → Returns (Remains pid before) (read_part env pid reads s) ⊎ GoesDown env pid reads s
  unfolding read_part
  read_part-Remains none s l room = inl (l.around, (λ h. ground (arith, l.known)), λ h. cc)
  read_part-Remains (some rs) s l room = read_loop-Listens env lawful _ _ room rs s l

  -- Whatever `read` and `write` return for a client, as long as all buy-ins together do not overflow: the
  -- event is handled, the server is in order, and every connection asks epoll for what it needs if every
  -- connection did; or in what is read the server comes to a header whose length overflows, or to an action
  -- after which a hand is started at a table whose engine is gone or whose button has left, with which it
  -- goes down.
  pub client_event-IsServer :
      (pid : PlayerId) (reads : Option (List ReadResult)) (writes : Option WriteResults)
      (s : Server)
      → IsServer s
      → has_key pid s.connections ≡ true
      → buy_in * s.next_player_id < u64_size
      → Returns (IsLeft pid s) (client_event env pid reads writes s) ⊎ GoesDown env pid reads s
  unfolding client_event
  client_event-IsServer pid reads writes s v here room =
      elim (Option-cases (lookup pid s.connections)) [
        | inl gone ↦ absurd (ground arith)
        | inr (conn, known) ↦
            let l : Listens pid s s = record {
              around = record {
                server = v;
                next = refl;
                tables = refl;
                others = λ p other h. h;
                hears = λ h p c e other. h p c e (λ nobody. cc);
              };
              conn = conn;
              known = known;
              pending = v.pending pid conn known;
            } in
            elim (read_part-Remains reads s l room) [
              | inr down ↦ inr down
              | inl ends ↦ inl (
                  Returns->>= (Remains pid s) (IsLeft pid s)
                    (read_part env pid reads s >>= write_part pid writes) (finish pid)
                    (Returns->>= _ _ (read_part env pid reads s) (write_part pid writes) ends
                      (write_part-Remains pid s writes))
                    (finish-IsLeft pid s))
            ]
      ]
