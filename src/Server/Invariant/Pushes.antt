-- ===== src/Server/Invariant/Pushes.antt =====
-- engine/src/server.cc, `push_one` and `push_table`: connections change in what is to go out and in what is
-- asked only.
use poker_epoll.Base.{
  ◌≡◌, refl, ap, sym, subst, ◌∙◌, [], ◌∷◌, ◌++◌, none, some, true, Map, lookup, has_key, insert,
  arith, done, Option-cases, Bool-cases, inl, inr, ◌==◌, if◌then◌else◌, ◌⊎◌, Option,
}
use poker_epoll.Rules.{PlayerId}
use poker_epoll.Players.Seating.{Unique}
use poker_epoll.Frames.{frame}
use poker_epoll.Server.{Conn, Server, ServerEnv, TableId, Outbound}
use poker_epoll.Server.Publishing.{
  push_one, push_table, publish_one, publish_msg, deliver, response_for, at_table_conns,
  update_interest,
}
use poker_epoll.Server.Privacy.{lookup-at_table_conns}
use poker_epoll.Server.Invariant.{IsServer}
use poker_epoll.Server.Invariant.Traffic.{
  IsRewritten, Told, Told-refl, Hears, AllHear, update_interest-Hears, insert-AllHear,
  insert-IsRewritten,
}

Unique-at_table_conns :
    (id : TableId) (change : Conn → Conn) (m : Map Conn)
    → Unique m
    → Unique (at_table_conns id change m)
unfolding at_table_conns
Unique-at_table_conns id change [] u = tt
Unique-at_table_conns id change ((k, conn) ∷ m) u = (
  ground (arith, lookup-at_table_conns id change m k, u.0),
  Unique-at_table_conns id change m u.1,
)

deliver-Told : (env : ServerEnv) (out : Outbound) (conn : Conn) → Told conn (deliver env out conn)
unfolding deliver publish_msg
deliver-Told env out conn = elim (Option-cases (response_for out conn)) [
  | inl none_for ↦ rw (none_for, deliver) (Told-refl conn)
  | inr (res, e) ↦ rw (e, deliver) (conn.out ++ frame (env.serialize res), conn.wants_write, refl)
]

update_interest-Told : (c c' : Conn) → Told c c' → Told c (update_interest c')
unfolding update_interest
update_interest-Told c c' (bytes, asked, e) = (
  bytes,
  (update_interest c').wants_write,
  ap (λ (d : Conn). update_interest d) e
      ∙ ap (λ (d : Conn). record c { out = bytes; wants_write = (update_interest d).wants_write })
          (sym e),
)

module _ (env : ServerEnv) (id : TableId) (out : Outbound) where
  abbrev informed : Conn → Conn
  informed conn = update_interest (deliver env out conn)

  -- What a push to the table makes of a connection.
  abbrev after : Conn → Conn
  after c = if c.table_id == id then informed c else c

  after-Told : (c : Conn) → Told c (after c)
  after-Told c = elim (Bool-cases (c.table_id == id)) [
    | inl here ↦ rw here (update_interest-Told c (deliver env out c) (deliver-Told env out c))
    | inr away ↦ rw away (Told-refl c)
  ]

  after-Hears : (c : Conn) → Hears c → Hears (after c)
  after-Hears c h = elim (Bool-cases (c.table_id == id)) [
    | inl here ↦ rw here (update_interest-Hears (deliver env out c))
    | inr away ↦ rw away h
  ]

  module _ (s : Server) where
    at :
        (p : PlayerId)
        → lookup p (push_table env id out s).connections
          ≡ (elim (lookup p s.connections) [ none ↦ none | some c ↦ some (after c) ])
    unfolding push_table
    at p = lookup-at_table_conns id informed s.connections p

    reached :
        (p : PlayerId) (c : Conn)
        → lookup p s.connections ≡ some c
        → lookup p (push_table env id out s).connections ≡ some (after c)
    reached p c e = at p ∙ ground (arith, e)

    -- A connection after the push was there before.
    was_there :
        (p : PlayerId) (c' : Conn)
        → lookup p (push_table env id out s).connections ≡ some c'
        → (c : Conn) × (lookup p s.connections ≡ some c) × (after c ≡ c')
    was_there p c' e = elim (Option-cases (lookup p s.connections)) [
      | inl gone ↦ absurd (ground (arith, at p))
      | inr (c, known) ↦ (c, known, (let r = reached p c known in cc))
    ]

    -- Whatever is pushed to a table, connections change in what is to go out and what is asked only.
    pub push_table-Told :
        IsServer s → IsRewritten Told s.connections (push_table env id out s).connections
    unfolding push_table
    push_table-Told v = record {
      unique = Unique-at_table_conns id informed s.connections v.unique;
      forth = λ p c e. (after c, reached p c e, after-Told c);
      back = λ p c' e.
          let (c, known, became) = was_there p c' e in
          (c, known, subst (Told c) became (after-Told c));
    }

    pub push_table-AllHear :
        (q : Option PlayerId)
        → AllHear q s.connections
        → AllHear q (push_table env id out s).connections
    push_table-AllHear q h p c' e other =
        let (c, known, became) = was_there p c' e in
        subst Hears became (after-Hears c (h p c known other))

-- The player whose connection is left out is sent something, or one who is asked about already.
abbrev pub MayWait : Option PlayerId → PlayerId → Server → Type 0
MayWait q pid s =
    (some pid ≡ q)
    ⊎ ((conn : Conn) → lookup pid s.connections ≡ some conn → conn.wants_write ≡ true)

pub push_one-Told :
    (env : ServerEnv) (pid : PlayerId) (out : Outbound) (s : Server)
    → IsServer s
    → has_key pid s.connections ≡ true
    → (m : Map Conn) × (push_one env pid out s ≡ done (record s { connections = m }))
      × IsRewritten Told s.connections m
      × ((q : Option PlayerId) → MayWait q pid s → AllHear q s.connections → AllHear q m)
unfolding push_one publish_one publish_msg
push_one-Told env pid out s v here = elim (Option-cases (lookup pid s.connections)) [
  | inl gone ↦ absurd (ground arith)
  | inr (conn, known) ↦ (
    insert pid (publish_one env out conn) s.connections,
    rw (known, push_one) refl,
    insert-IsRewritten Told s.connections pid conn (publish_one env out conn) Told-refl v.unique
        known (_, _, refl),
    λ q may h.
        insert-AllHear q s.connections pid (publish_one env out conn)
          (elim may [ inl left_out ↦ inl left_out | inr asks ↦ inr (inr (asks conn known)) ]) h,
  )
]
