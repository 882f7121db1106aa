-- ===== src/Server/Invariant/Replies.antt =====
-- engine/src/main.cc: the handling of a message and of a new connection keeps the invariant of the
-- server, or starts a hand at a table whose engine is gone or whose button has left.
use poker_epoll.Base.{
  ℕ, ◌+◌, ◌*◌, ◌≤◌, ◌<◌, ◌≡◌, refl, ap, sym, none, subst, ◌∙◌, ◌⊎◌, List, some, true, lookup,
  has_key, arith, u64_size, add64_exact, done, fault, IfDone, Returns, Returns-done, Returns-map,
  Expected, value, unexpected, Option-cases, inl, inr,
}
use poker_epoll.Rules.{PlayerId, buy_in}
use poker_epoll.Errors.{Error, of_game, invalid_action}
use poker_epoll.Messages.{ProtoAction}
use poker_epoll.Table.{Event}
use poker_epoll.Table.Environment.{IsLawful}
use poker_epoll.Server.{Conn, Server, ServerEnv, TableId, one_event, events, error}
use poker_epoll.Server.Publishing.{push_one, push_table}
use poker_epoll.Server.Connections.{handle_connect}
use poker_epoll.Server.Hands.{apply_action}
use poker_epoll.Server.Loop.{go_on_playing, answer, handle_message, greet, accept_client}
use poker_epoll.Server.Invariant.{IsServer}
use poker_epoll.Server.Invariant.Traffic.{AllHear}
use poker_epoll.Server.Invariant.Pushes.{MayWait}
use poker_epoll.Server.Invariant.Connecting.Joining.{
  handle_connect-IsNew, Joins-AllHear, Joins-has_key,
}
use poker_epoll.Server.Invariant.Connecting.Seated.{handle_connect-IsServer}
use poker_epoll.Server.Invariant.Actions.{apply_action-IsServer, IsBroken}
use poker_epoll.Server.Invariant.Handling.{
  Carries, Carries-trans, Carries-has_key, OnlyTables, apply_action-OnlyTables,
  go_on_playing-Carries, push_one-Carries, push_table-Carries, tables-Carries,
}

-- The action that came was applied, and left a table where a hand is to start, and whose engine is gone or
-- whose button has left.
abbrev pub Strands : ServerEnv → PlayerId → List ℕ → Server → Type 0
Strands env pid msg s =
    (action : ProtoAction) × (env.parse msg ≡ some action)
    × ((r : Expected Error (List Event) × Server) × (apply_action env action pid s ≡ done r)
        × ((tid : TableId) × IsBroken r.1 tid))

module _ (env : ServerEnv) (lawful : IsLawful env.at_tables) where
  answer-Carries :
      (pid : PlayerId) (s : Server) (r : Expected Error (List Event) × Server)
      → Carries (some pid) s r.1
      → has_key pid r.1.connections ≡ true
      → buy_in * r.1.next_player_id < u64_size
      → Returns (Carries (some pid) s) (answer env pid r)
        ⊎ (((tid : TableId) × IsBroken r.1 tid) × (answer env pid r ≡ fault))
  unfolding answer push_table
  answer-Carries pid s (unexpected e, s') c here room = inl (
      Returns-map (Carries (some pid) s') (Carries (some pid) s) (push_one env pid (error e) s')
        (push_one-Carries (some pid) env pid (error e) s' c.server here (inl refl))
        (λ s''. Carries-trans (some pid) s s' s'' c))
  answer-Carries pid s (value evs, s') c here room =
      elim (Option-cases (lookup pid s'.connections)) [
        | inl gone ↦ absurd (ground arith)
        | inr (conn, known) ↦
            let pushed = push_table-Carries (some pid) env conn.table_id (events evs) s' c.server in
            elim (go_on_playing-Carries env lawful (some pid) conn.table_id
              (push_table env conn.table_id (events evs) s') pushed.server room) [
                | inl ends ↦ inl (
                    rw (known, answer)
                      (Returns-map _ (Carries (some pid) s) _ ends (λ s''.
                        Carries-trans (some pid) s _ s''
                          (Carries-trans (some pid) s s' _ c pushed))))
                | inr (broken, crash) ↦ inr ((conn.table_id, broken), rw (known, answer) crash)
              ]
      ]

  -- Whatever a connected player sends, as long as all buy-ins together do not overflow: the message is
  -- handled, the server stays in order, and its connections change only in what is to go out and in what
  -- epoll is asked; or after the action that was sent a hand is started at a table whose engine is gone or
  -- whose button has left, and the server goes down.
  pub handle_message-Carries :
      (pid : PlayerId) (msg : List ℕ) (s : Server)
      → IsServer s
      → has_key pid s.connections ≡ true
      → buy_in * s.next_player_id < u64_size
      → Returns (Carries (some pid) s) (handle_message env pid msg s)
        ⊎ (Strands env pid msg s × (handle_message env pid msg s ≡ fault))
  unfolding handle_message
  handle_message-Carries pid msg s v here room = elim (Option-cases (env.parse msg)) [
    | inl malformed ↦ inl (
        rw (malformed, handle_message)
          (push_one-Carries (some pid) env pid (error (of_game invalid_action)) s v here
            (inl refl)))
    | inr (action, parsed) ↦
        let (r, e, v') =
          Returns-done (λ r. IsServer r.1) (apply_action env action pid s)
            (apply_action-IsServer env lawful s v action pid here) in
        let only =
          subst (IfDone (λ r. OnlyTables s r.1)) e (apply_action-OnlyTables env action pid s) in
        let c = tables-Carries (some pid) s r.1 v v' only in
        let here' : has_key pid r.1.connections ≡ true =
          ap (λ (u : Server). has_key pid u.connections) only ∙ here in
        elim (answer-Carries pid s r c here' (ground (arith, c.next_player, room))) [
          | inl ends ↦ inl (rw (parsed, handle_message) (rw e ends))
          | inr (broken, crash) ↦
              inr ((action, parsed, (r, e, broken)), rw (parsed, handle_message) (rw e crash))
        ]
  ]

-- The server after a client has connected.
pub record IsJoined (s s' : Server) : Type 0 where
  pub server : IsServer s'
  pub next_player : s'.next_player_id ≡ s.next_player_id + 1
  pub next_table : s'.next_table_id ≤ s.next_table_id + 1
  pub others : (p : PlayerId) → has_key p s.connections ≡ true → has_key p s'.connections ≡ true
  pub hears : AllHear none s.connections → AllHear none s'.connections

module _ (env : ServerEnv) (lawful : IsLawful env.at_tables) where
  greet-Carries :
      (r : PlayerId × Expected Error Event × Server)
      → IsServer r.2
      → has_key r.0 r.2.connections ≡ true
      → MayWait none r.0 r.2
      → buy_in * r.2.next_player_id < u64_size
      → Returns (Carries none r.2) (greet env r)
        ⊎ (((tid : TableId) × IsBroken r.2 tid) × (greet env r ≡ fault))
  unfolding greet push_table
  greet-Carries (pid, res, s) v here may room = elim (Option-cases (lookup pid s.connections)) [
    | inl gone ↦ absurd (ground arith)
    | inr (conn, known) ↦ rw (known, greet) (tell res conn)
  ]
    where
      tell :
          (res : Expected Error Event) (conn : Conn)
          → Returns (Carries none s) (elim res [
            | unexpected e ↦ push_one env pid (error e) s
            | value ev ↦
                go_on_playing env conn.table_id (push_table env conn.table_id (one_event ev) s)
          ])
            ⊎ (((tid : TableId) × IsBroken s tid)
                × ((elim res [
                  | unexpected e ↦ push_one env pid (error e) s
                  | value ev ↦
                      go_on_playing env conn.table_id
                        (push_table env conn.table_id (one_event ev) s)
                ])
                    ≡ fault))
      tell (unexpected e) conn = inl (push_one-Carries none env pid (error e) s v here may)
      tell (value ev) conn =
          let pushed = push_table-Carries none env conn.table_id (one_event ev) s v in
          elim (go_on_playing-Carries env lawful none conn.table_id
            (push_table env conn.table_id (one_event ev) s) pushed.server room) [
              | inl ends ↦
                  inl
                    (Returns-map _ (Carries none s) _ ends (λ s'. Carries-trans none s _ s' pushed))
              | inr (broken, crash) ↦ inr ((conn.table_id, broken), crash)
            ]

  -- Whoever connects, as long as the identifiers do not wrap around and all buy-ins together do not
  -- overflow: the server ends in order, with one identifier of a player used up, and one of a table at
  -- most, those who were connected still are, and if every connection asked epoll for what it needs then
  -- every connection does; or with the new player a hand is started at a table whose engine is gone
  -- or whose button has left, and the server goes down.
  pub accept_client-IsServer :
      (cfd : ℕ) (s : Server)
      → IsServer s
      → buy_in * (s.next_player_id + 1) < u64_size
      → s.next_table_id + 1 < u64_size
      → Returns (IsJoined s) (accept_client env cfd s)
        ⊎ (((tid : TableId) × IsBroken (handle_connect env cfd s).2 tid)
            × (accept_client env cfd s ≡ fault))
  unfolding accept_client
  accept_client-IsServer cfd s v room tables =
      let joined = (handle_connect env cfd s).2 in
      let new = handle_connect-IsNew env cfd s in
      let at_new : (conn : Conn)
          → lookup (handle_connect env cfd s).0 joined.connections ≡ some conn
          → conn.wants_write ≡ true =
        λ conn e.
          (let same : new.joins.conn ≡ conn = ground (arith, new.name, new.joins.here, e) in
            ap (λ (d : Conn). d.wants_write) (sym same) ∙ new.joins.asks) in
      let next : joined.next_player_id ≡ s.next_player_id + 1 =
        new.next_player ∙ add64_exact s.next_player_id 1 (omega (arith, room)) in
      let v' = handle_connect-IsServer env s cfd v (omega (arith, room)) tables in
      elim (greet-Carries (handle_connect env cfd s) v' (ground (arith, new.name, new.joins.here))
        (inr at_new) (omega (arith, next, room))) [
          | inl ends ↦ inl (
              Returns-map (Carries none joined) (IsJoined s) (accept_client env cfd s) ends (λ s' c.
                record {
                  server = c.server;
                  next_player = c.next_player ∙ next;
                  next_table = omega (arith, c.next_table, new.next_table);
                  others = λ p h. Carries-has_key none joined s' c p (
                      Joins-has_key s.next_player_id s.connections joined.connections new.joins p
                        h);
                  hears = λ h.
                      c.hears (
                        Joins-AllHear s.next_player_id s.connections joined.connections new.joins
                          h);
                }))
          | inr stuck ↦ inr stuck
        ]
