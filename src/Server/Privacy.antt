-- ===== src/Server/Privacy.antt =====
-- engine/src/server.cc, `push_table`: hole cards are sent to their owner only.
use mathlib.Core.List.{append-nil}
use poker_epoll.Base.{
  ℕ, ◌≡◌, ◌≢◌, refl, ap, ◌∙◌, List, [], ◌∷◌, ◌++◌, map, All, All-keep_if, Option, none, some, Bool,
  true, keep_if, Map, lookup, ◌==◌, if◌then◌else◌, eq_of_==, arith, Bool-cases, inl, inr,
}
use poker_epoll.Rules.{PlayerId}
use poker_epoll.Messages.{Response, ServerMessage, event_message, proto_dealt_hole}
use poker_epoll.Translate.{to_proto_event}
use poker_epoll.Frames.{frame}
use poker_epoll.Table.{Event, dealt_hole}
use poker_epoll.Server.{Conn, Server, ServerEnv, TableId, Outbound, one_event, events, error}
use poker_epoll.Server.Publishing.{
  message_of, event_visible_to, response_for, publish_msg, deliver, update_interest, at_table_conns,
  push_table,
}

-- The message may be seen by the player.
abbrev pub IsFor : PlayerId → ServerMessage → Type 0
IsFor p (event_message (proto_dealt_hole who hole)) = who ≡ p
IsFor p msg = Unit

abbrev pub IsPrivate : PlayerId → Response → Type 0
IsPrivate p res = All (IsFor p) res

-- The frames of some responses.
abbrev pub written : ServerEnv → List Response → List ℕ
written env [] = []
written env (res ∷ rest) = frame (env.serialize res) ++ written env rest

visible-IsFor :
    (conn : Conn) (ev : Event)
    → event_visible_to ev conn ≡ true
    → IsFor conn.player_id (message_of ev)
unfolding event_visible_to to_proto_event
visible-IsFor conn (dealt_hole who hole) h = eq_of_== who conn.player_id h
visible-IsFor conn (Event.player_added who) h = tt
visible-IsFor conn (Event.player_removed who) h = tt
visible-IsFor conn (Event.bet_placed who amount) h = tt
visible-IsFor conn (Event.turn_advanced who) h = tt
visible-IsFor conn (Event.phase_advanced p) h = tt
visible-IsFor conn (Event.won_pot who amount) h = tt
visible-IsFor conn (Event.player_chips who amount) h = tt
visible-IsFor conn Event.hand_started h = tt
visible-IsFor conn (Event.dealt_flop cards) h = tt
visible-IsFor conn (Event.dealt_street card) h = tt
visible-IsFor conn (Event.showdown_hand who hole) h = tt

All-map :
    (p : PlayerId) (evs : List Event)
    → All (λ ev. IsFor p (message_of ev)) evs
    → IsPrivate p (map message_of evs)
All-map p [] h = tt
All-map p (ev ∷ evs) h = (h.0, All-map p evs h.1)

abbrev to_list : Option Response → List Response
to_list none = []
to_list (some res) = res ∷ []

seen-IsPrivate :
    (conn : Conn) (seen : List Event)
    → All (λ ev. IsFor conn.player_id (message_of ev)) seen
    → All
        (IsPrivate conn.player_id)
        (to_list (elim seen [ [] ↦ none | ev ∷ rest ↦ some (map message_of (ev ∷ rest)) ]))
seen-IsPrivate conn [] k = tt
seen-IsPrivate conn (ev ∷ rest) k = (All-map conn.player_id (ev ∷ rest) k, tt)

response_for-IsPrivate :
    (out : Outbound) (conn : Conn)
    → All (IsPrivate conn.player_id) (to_list (response_for out conn))
unfolding response_for
response_for-IsPrivate (error e) conn = tt
response_for-IsPrivate (one_event ev) conn = elim (Bool-cases (event_visible_to ev conn)) [
  | inl seen ↦ rw seen ((visible-IsFor conn ev seen, tt), tt)
  | inr hidden ↦ rw hidden tt
]
response_for-IsPrivate (events evs) conn =
    seen-IsPrivate conn (keep_if (λ ev. event_visible_to ev conn) evs) (
      All-keep_if (λ ev. IsFor conn.player_id (message_of ev)) (λ ev. event_visible_to ev conn) evs
        (visible-IsFor conn))

-- What a connection is sent: responses that it may see, behind what it is sent already. Epoll may be
-- asked anew.
abbrev pub IsSent : ServerEnv → Conn → List Response → Option Conn → Type 0
IsSent env conn sent found =
    ((asked : Bool) × (found
        ≡ some (record conn { out = conn.out ++ written env sent; wants_write = asked })))
    × All (IsPrivate conn.player_id) sent

delivered :
    (env : ServerEnv) (conn : Conn) (res : Option Response)
    → ◌≡◌ {A = Conn}
        (elim res [ none ↦ conn | some r ↦ publish_msg (env.serialize r) conn ])
        (record conn { out = conn.out ++ written env (to_list res) })
unfolding publish_msg
delivered env conn none = rw append-nil refl
delivered env conn (some r) = rw append-nil refl

deliver-IsSent :
    (env : ServerEnv) (out : Outbound) (conn : Conn)
    → IsSent env conn
        (to_list (response_for out conn))
        (some (update_interest (deliver env out conn)))
unfolding deliver update_interest
deliver-IsSent env out conn = (
  (_, ap (λ c. some (update_interest c)) (delivered env conn (response_for out conn))),
  response_for-IsPrivate out conn,
)

pub lookup-at_table_conns :
    (id : TableId) (change : Conn → Conn) (m : Map Conn) (pid : PlayerId)
    → lookup pid (at_table_conns id change m) ≡ (elim (lookup pid m) [
      | none ↦ none
      | some conn ↦ some (if conn.table_id == id then change conn else conn)
    ])
unfolding at_table_conns
lookup-at_table_conns id change [] pid = refl
lookup-at_table_conns id change ((k, conn) ∷ m) pid =
    ground (arith, lookup-at_table_conns id change m pid)

-- Whatever is pushed to a table, only connections of the table are sent anything, nobody's output is
-- lost, and no message holds the hole cards of a player other than the one whom it is sent to, but
-- for the hands that are shown at a showdown.
pub push_table-IsPrivate :
    (env : ServerEnv) (id : TableId) (out : Outbound) (s : Server) (pid : PlayerId) (conn : Conn)
    → lookup pid s.connections ≡ some conn
    → (sent : List Response) × IsSent env conn sent
        (lookup pid (push_table env id out s).connections)
      × (conn.table_id ≢ id → sent ≡ [])
unfolding push_table
push_table-IsPrivate env id out s pid conn known =
    let at =
      lookup-at_table_conns id (λ c. update_interest (deliver env out c)) s.connections pid in
    elim (Bool-cases (conn.table_id == id)) [
      | inl here ↦
          let ((asked, sent), seen) = deliver-IsSent env out conn in
          (
            to_list (response_for out conn),
            ((asked, (at ∙ ground (arith, known)) ∙ sent), seen),
            λ ne. absurd (ne (eq_of_== conn.table_id id here)),
          )
      | inr away ↦ (
        [],
        ((conn.wants_write, (at ∙ ground (arith, known)) ∙ ap some (delivered env conn none)), tt),
        λ ne. refl,
      )
    ]
