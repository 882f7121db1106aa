-- ===== src/Server/Invariant/Actions.antt =====
-- engine/src/server.cc, `apply_action`, `start_hand` and `maybe_start_hand`: the tables that they change
-- stay in order.
use poker_epoll.Base.{
  ◌+◌, ◌*◌, ◌<◌, ◌≡◌, refl, ◌≢◌, ◌⊎◌, none, some, true, length, lookup, has_key, fault, Returns,
  Returns->>=, Returns-done, ltb, ◌==◌, arith, u64_size, Option-cases, Bool-cases, inl, inr,
}
use poker_epoll.Rules.{PlayerId, buy_in}
use poker_epoll.Messages.{ProtoAction, action_not_set, proto_fold, proto_bet}
use poker_epoll.Translate.{from_proto_action}
use poker_epoll.Players.{num_players}
use poker_epoll.Players.Purses.{purses}
use poker_epoll.Table.{dangling, Table, Action, fold, bet}
use poker_epoll.Table.Environment.{Env, IsLawful}
use poker_epoll.Table.Seats.{can_start_hand}
use poker_epoll.Table.Hands.{handle_new_hand, hand_in_progress}
use poker_epoll.Table.Hands.Button.{handle_new_hand_button}
use poker_epoll.Table.Invariant.Settling.{IsTable, Settles}
use poker_epoll.Table.Invariant.Actions.{on_action-Settles}
use poker_epoll.Table.Invariant.NewHands.{
  refused-Deals, between_hands, Deals, handle_new_hand_cases,
}
use poker_epoll.Server.{Server, ServerEnv, TableId}
use poker_epoll.Server.Hands.{act_at, apply_action, maybe_start_hand, put_back}
use poker_epoll.Server.Invariant.{
  IsServer, Settles-Advances, Deals-Advances, put_back-IsServer, funds,
}

module _ (env : ServerEnv) (lawful : IsLawful env.at_tables) (s : Server) (v : IsServer s) where
  act_at-IsServer :
      (action : Action) (tid : TableId) → Returns (λ r. IsServer r.1) (act_at env action tid s)
  unfolding act_at
  act_at-IsServer action tid = elim (Bool-cases (tid == 0)) [
    | inl nowhere ↦ rw nowhere v
    | inr somewhere ↦ rw somewhere (elim (Option-cases (lookup tid s.tables)) [
      | inl closed ↦ rw closed v
      | inr (t, known) ↦ rw known (
          Returns->>= (λ r. Settles t r.1) (λ r. IsServer r.1) _ (put_back tid s)
            (on_action-Settles env.at_tables action t lawful (v.rooms tid t known).in_order)
            (λ r settled. put_back-IsServer s tid t r.1 v known (Settles-Advances t r.1 settled)))
    ])
  ]

  -- Whatever message a connected player sends, the server replies, and its invariant is kept.
  pub apply_action-IsServer :
      (a : ProtoAction) (id : PlayerId)
      → has_key id s.connections ≡ true
      → Returns (λ r. IsServer r.1) (apply_action env a id s)
  unfolding apply_action from_proto_action
  apply_action-IsServer action_not_set id here = v
  apply_action-IsServer proto_fold id here = elim (Option-cases (lookup id s.connections)) [
    | inl gone ↦ absurd (ground arith)
    | inr (conn, known) ↦ rw (known, apply_action) (act_at-IsServer (fold id) conn.table_id)
  ]
  apply_action-IsServer (proto_bet amount) id here = elim (Option-cases (lookup id s.connections)) [
    | inl gone ↦ absurd (ground arith)
    | inr (conn, known) ↦ rw (known, apply_action) (act_at-IsServer (bet id amount) conn.table_id)
  ]

-- The player who had the button has left the table.
abbrev pub ButtonLeft : Table → Type 0
ButtonLeft t = (t.button ≢ 0) × (lookup t.button t.players.index ≡ none)

-- A new hand at the table is not defined: the player who had the button has left, or the engine that
-- `rng_` refers to is gone.
abbrev pub IsUndealable : Table → Type 0
IsUndealable t = ButtonLeft t ⊎ (t.rng ≡ dangling)

-- A new hand at a table that is in order is dealt or refused, unless the button has left or the engine
-- is gone.
pub new_hand_cases :
    (env : Env) (t : Table)
    → IsLawful env
    → IsTable t
    → funds t < u64_size
    → Returns (λ r. Deals t r.1) (handle_new_hand env t)
      ⊎ (IsUndealable t × (handle_new_hand env t ≡ fault))
unfolding handle_new_hand hand_in_progress
new_hand_cases env t lawful v room = elim (Bool-cases (t.button == 0)) [
  | inl new ↦ told (handle_new_hand_cases env t lawful v (inl (ground arith)) enough)
  | inr old ↦ elim (Option-cases (lookup t.button t.players.index)) [
    | inr (seat, known) ↦ told (handle_new_hand_cases env t lawful v (inr (ground arith)) enough)
    | inl gone ↦ elim (Bool-cases (ltb (num_players t.players) 2)) [
      | inl few ↦ inl (rw (few, handle_new_hand) (refused-Deals t v (inl (ground arith))))
      | inr many ↦ elim (Bool-cases (hand_in_progress t)) [
        | inl busy ↦
            inl
              (rw (many, busy, handle_new_hand) (refused-Deals t v (inr (λ e. ground (arith, e)))))
        | inr free ↦
            let (seating, small, idle) = between_hands t t.hand_state refl free v in
            let held_button : t.button ≢ 0 = ground arith in
            inr (
              inl (held_button, gone),
              handle_new_hand_button env t seating idle (ground arith) held_button gone,
            )
      ]
    ]
  ]
]
  where
    enough : purses t.players + buy_in * length t.players.holding < u64_size
    enough = omega (arith, room)

    told :
        Returns (λ r. Deals t r.1) (handle_new_hand env t)
          ⊎ ((t.rng ≡ dangling) × (handle_new_hand env t ≡ fault))
        → Returns (λ r. Deals t r.1) (handle_new_hand env t)
          ⊎ (IsUndealable t × (handle_new_hand env t ≡ fault))
    told (inl deals) = inl deals
    told (inr (no_engine, crash)) = inr (inr no_engine, crash)

-- A hand is to start at the table that is asked for, and is not defined.
abbrev pub IsBroken : Server → TableId → Type 0
IsBroken s tid =
    (t : Table) × (lookup tid s.tables ≡ some t) × (can_start_hand t ≡ true) × IsUndealable t

module _ (env : ServerEnv) (lawful : IsLawful env.at_tables) (s : Server) (v : IsServer s)
    (room : buy_in * s.next_player_id < u64_size) where
  -- As long as all buy-ins together do not overflow, a hand is started or not, and the invariant is
  -- kept; only a hand that is started at a table whose
  -- engine is gone or whose button has left brings the server down.
  pub maybe_start_hand-IsServer :
      (tid : TableId)
      → Returns (λ r. IsServer r.1) (maybe_start_hand env tid s)
        ⊎ (IsBroken s tid × (maybe_start_hand env tid s ≡ fault))
  unfolding maybe_start_hand
  maybe_start_hand-IsServer tid = elim (Option-cases (lookup tid s.tables)) [
    | inl closed ↦ inl (rw (closed, maybe_start_hand) v)
    | inr (t, known) ↦ elim (Bool-cases (can_start_hand t)) [
      | inr wait ↦ inl (rw (known, maybe_start_hand) (rw (wait, Returns) v))
      | inl go ↦
          let in_room = v.rooms tid t known in
          elim (new_hand_cases env.at_tables t lawful in_room.in_order
            (omega (arith, in_room.funded, room))) [
              | inr (gone, crash) ↦
                  inr ((t, known, go, gone), rw (known, maybe_start_hand) (rw (go, crash) refl))
              | inl ends ↦
                  let (r, e, deals) =
                    Returns-done (λ r. Deals t r.1) (handle_new_hand env.at_tables t) ends in
                  inl (
                    rw (known, maybe_start_hand)
                      (rw (go, e, Returns)
                        (put_back-IsServer s tid t r.1 v known (Deals-Advances t r.1 deals))))
            ]
    ]
  ]
