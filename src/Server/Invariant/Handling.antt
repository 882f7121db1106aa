-- ===== src/Server/Invariant/Handling.antt =====
-- engine/src/server.cc and main.cc: what a reply leaves as it is, and a hand that is started after it.
use poker_epoll.Base.{
  ◌*◌, ◌<◌, ◌≡◌, refl, ap, sym, subst, ◌∙◌, ◌⊎◌, List, Option, none, some, true, Map, lookup,
  has_key, arith, u64_size, Outcome, done, fault, IfDone, ◌>>=◌, Returns, Returns-done, Expected,
  value, unexpected, Option-cases, Bool-cases, inl, inr, ◌==◌,
}
use poker_epoll.Rules.{PlayerId, buy_in}
use poker_epoll.Errors.{GameError, of_game}
use poker_epoll.Messages.{ProtoAction}
use poker_epoll.Translate.{from_proto_action}
use poker_epoll.Table.{Table, Event, Action}
use poker_epoll.Table.Environment.{IsLawful}
use poker_epoll.Table.Seats.{can_start_hand}
use poker_epoll.Table.Hands.{handle_new_hand}
use poker_epoll.Table.Actions.{on_action}
use poker_epoll.Server.{Conn, Server, ServerEnv, TableId, Outbound, events}
use poker_epoll.Server.Publishing.{push_one, push_table}
use poker_epoll.Server.Hands.{act_at, apply_action, maybe_start_hand, put_back, started}
use poker_epoll.Server.Loop.{go_on_playing, tell_started}
use poker_epoll.Server.Invariant.{IsServer}
use poker_epoll.Server.Invariant.Actions.{maybe_start_hand-IsServer, IsBroken}
use poker_epoll.Server.Invariant.Traffic.{
  Told, Told-refl, Told-SameSeat, SameSeat, IsRewritten, weaken, rewritten-IsServer, AllHear,
}
use poker_epoll.Server.Invariant.Pushes.{
  push_one-Told, push_table-Told, push_table-AllHear, MayWait,
}

-- Only the tables of the server have changed.
abbrev pub OnlyTables : Server → Server → Type 0
OnlyTables s s' = s' ≡ record s { tables = s'.tables }

put_back-OnlyTables :
    (tid : TableId) (s : Server) (m : Outcome (Expected GameError (List Event) × Table))
    → IfDone (λ r. OnlyTables s r.1) (m >>= put_back tid s)
put_back-OnlyTables tid s (done r) = refl
put_back-OnlyTables tid s fault = tt

act_at-OnlyTables :
    (env : ServerEnv) (action : Action) (tid : TableId) (s : Server)
    → IfDone (λ r. OnlyTables s r.1) (act_at env action tid s)
unfolding act_at
act_at-OnlyTables env action tid s = elim (Bool-cases (tid == 0)) [
  | inl nowhere ↦ rw (nowhere, act_at) refl
  | inr somewhere ↦ elim (Option-cases (lookup tid s.tables)) [
    | inl closed ↦ rw (somewhere, act_at) (rw closed refl)
    | inr (t, known) ↦
        rw (somewhere, act_at)
          (rw known (put_back-OnlyTables tid s (on_action env.at_tables action t)))
  ]
]

pub apply_action-OnlyTables :
    (env : ServerEnv) (a : ProtoAction) (id : PlayerId) (s : Server)
    → IfDone (λ r. OnlyTables s r.1) (apply_action env a id s)
unfolding apply_action
apply_action-OnlyTables env a id s = act (from_proto_action a id)
  where
    act :
        (e : Expected GameError Action)
        → IfDone
            (λ r. OnlyTables s r.1)
            (elim e [
              | unexpected er ↦ done (unexpected (of_game er), s)
              | value action ↦ elim (lookup id s.connections) [
                | none ↦ fault
                | some conn ↦ act_at env action conn.table_id s
              ]
            ])
    act (unexpected er) = refl
    act (value action) = elim (Option-cases (lookup id s.connections)) [
      | inl gone ↦ rw gone tt
      | inr (conn, known) ↦ rw known (act_at-OnlyTables env action conn.table_id s)
    ]

start-OnlyTables :
    (tid : TableId) (s : Server) (m : Outcome (Expected GameError (List Event) × Table))
    → IfDone
        (λ (r : Option (List Event) × Server). OnlyTables s r.1)
        ((m >>= put_back tid s) >>= (λ r. done (started r.0, r.1)))
start-OnlyTables tid s (done r) = refl
start-OnlyTables tid s fault = tt

maybe_start_hand-OnlyTables :
    (env : ServerEnv) (tid : TableId) (s : Server)
    → IfDone (λ r. OnlyTables s r.1) (maybe_start_hand env tid s)
unfolding maybe_start_hand
maybe_start_hand-OnlyTables env tid s = elim (Option-cases (lookup tid s.tables)) [
  | inl closed ↦ rw (closed, maybe_start_hand) refl
  | inr (t, known) ↦ elim (Bool-cases (can_start_hand t)) [
    | inl go ↦
        rw (known, maybe_start_hand)
          (rw go (start-OnlyTables tid s (handle_new_hand env.at_tables t)))
    | inr wait ↦ rw (known, maybe_start_hand) (rw wait refl)
  ]
]

-- The server is in order, with the same connections but for what is to go out and what is asked. Every
-- connection but that of the player, if there is one, asks for what it needs if it did.
pub record Carries (q : Option PlayerId) (s s' : Server) : Type 0 where
  pub server : IsServer s'
  pub conns : IsRewritten Told s.connections s'.connections
  pub next_player : s'.next_player_id ≡ s.next_player_id
  pub next_table : s'.next_table_id ≡ s.next_table_id
  pub hears : AllHear q s.connections → AllHear q s'.connections

pub Told-Carries :
    (q : Option PlayerId) (s : Server) (m : Map Conn)
    → IsServer s
    → IsRewritten Told s.connections m
    → (AllHear q s.connections → AllHear q m)
    → Carries q s (record s { connections = m })
Told-Carries q s m v w h = record {
  server = rewritten-IsServer s m v (weaken Told SameSeat s.connections m Told-SameSeat w);
  conns = w;
  next_player = refl;
  next_table = refl;
  hears = h;
}

pub tables-Carries :
    (q : Option PlayerId) (s s' : Server)
    → IsServer s
    → IsServer s'
    → OnlyTables s s'
    → Carries q s s'
tables-Carries q s s' v v' e = record {
  server = v';
  conns =
      subst (IsRewritten Told s.connections) (sym (ap (λ (u : Server). u.connections) e)) (record {
        unique = v.unique;
        forth = λ p c known. (c, known, Told-refl c);
        back = λ p c known. (c, known, Told-refl c);
      });
  next_player = ap (λ (u : Server). u.next_player_id) e;
  next_table = ap (λ (u : Server). u.next_table_id) e;
  hears = λ h. subst (AllHear q) (sym (ap (λ (u : Server). u.connections) e)) h;
}

Told-trans : (a b c : Conn) → Told a b → Told b c → Told a c
Told-trans a b c (x, u, e) (y, w, f) =
    (y, w, f ∙ ap (λ (d : Conn). record d { out = y; wants_write = w }) e)

pub Carries-trans :
    (q : Option PlayerId) (a b c : Server) → Carries q a b → Carries q b c → Carries q a c
Carries-trans q a b c v w = record {
  server = w.server;
  conns = record {
    unique = w.conns.unique;
    forth = λ p x e.
        let (y, e', r) = v.conns.forth p x e in
        let (z, e'', k) = w.conns.forth p y e' in (z, e'', Told-trans x y z r k);
    back = λ p z e.
        let (y, e', k) = w.conns.back p z e in
        let (x, e'', r) = v.conns.back p y e' in (x, e'', Told-trans x y z r k);
  };
  next_player = w.next_player ∙ v.next_player;
  next_table = w.next_table ∙ v.next_table;
  hears = λ h. w.hears (v.hears h);
}

pub Carries-has_key :
    (q : Option PlayerId) (s s' : Server)
    → Carries q s s'
    → (p : PlayerId) → has_key p s.connections ≡ true
    → has_key p s'.connections ≡ true
Carries-has_key q s s' c p h = elim (Option-cases (lookup p s.connections)) [
  | inl gone ↦ absurd (ground arith)
  | inr (conn, known) ↦
      let (conn', known', told) = c.conns.forth p conn known in ground (arith, known')
]

pub push_one-Carries :
    (q : Option PlayerId) (env : ServerEnv) (pid : PlayerId) (out : Outbound) (s : Server)
    → IsServer s
    → has_key pid s.connections ≡ true
    → MayWait q pid s
    → Returns (Carries q s) (push_one env pid out s)
push_one-Carries q env pid out s v here may =
    let (m, e, w, h) = push_one-Told env pid out s v here in rw e (Told-Carries q s m v w (h q may))

pub push_table-Carries :
    (q : Option PlayerId) (env : ServerEnv) (tid : TableId) (out : Outbound) (s : Server)
    → IsServer s
    → Carries q s (push_table env tid out s)
unfolding push_table
push_table-Carries q env tid out s v =
    Told-Carries q s (push_table env tid out s).connections v (push_table-Told env tid out s v)
      (push_table-AllHear env tid out s q)

tell_started-Carries :
    (q : Option PlayerId) (env : ServerEnv) (tid : TableId) (r : Option (List Event) × Server)
    → IsServer r.1
    → Carries q r.1 (tell_started env tid r)
tell_started-Carries q env tid (none, s) v = tables-Carries q s s v v refl
tell_started-Carries q env tid (some evs, s) v = push_table-Carries q env tid (events evs) s v

module _ (env : ServerEnv) (lawful : IsLawful env.at_tables) where
  -- A hand is started and told, or not started; or it is started at a table whose engine is gone or whose button
  -- has left.
  pub go_on_playing-Carries :
      (q : Option PlayerId) (tid : TableId) (s : Server)
      → IsServer s
      → buy_in * s.next_player_id < u64_size
      → Returns (Carries q s) (go_on_playing env tid s)
        ⊎ (IsBroken s tid × (go_on_playing env tid s ≡ fault))
  unfolding go_on_playing
  go_on_playing-Carries q tid s v room = elim (maybe_start_hand-IsServer env lawful s v room tid) [
    | inr (broken, crash) ↦ inr (broken, rw (crash, go_on_playing) refl)
    | inl ends ↦
        let (r, e, v') = Returns-done (λ r. IsServer r.1) (maybe_start_hand env tid s) ends in
        let only =
          subst (IfDone (λ r. OnlyTables s r.1)) e (maybe_start_hand-OnlyTables env tid s) in
        inl (
          rw (e, go_on_playing)
            (Carries-trans q s r.1 (tell_started env tid r) (tables-Carries q s r.1 v v' only)
              (tell_started-Carries q env tid r v')))
  ]
