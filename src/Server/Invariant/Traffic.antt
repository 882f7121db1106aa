-- ===== src/Server/Invariant/Traffic.antt =====
-- engine/src/server.cc: what sending messages, and the calls of a table, leave as they are.
use poker_epoll.Base.{
  ℕ, ◌≡◌, refl, ap, sym, subst, eq_of_==, ◌∙◌, List, [], ◌∷◌, some, true, Map, lookup,
  lookup-insert, insert, insert_cases, arith, Bool-cases, inl, inr, ◌==◌, ◌⊎◌, ◌≢◌, Option, Bool,
  insert_cases,
}
use poker_epoll.Rules.{PlayerId}
use poker_epoll.Players.Seating.{Unique, insert-Unique}
use poker_epoll.Frames.Pending.{IsPending}
use poker_epoll.Server.{Conn, Server}
use poker_epoll.Server.Publishing.{update_interest}
use poker_epoll.Server.Invariant.{IsServer}

-- The connection is at the same table, for the same player, alive or dead as before.
pub record SameSeat (c c' : Conn) : Type 0 where
  pub player_id : c'.player_id ≡ c.player_id
  pub table_id : c'.table_id ≡ c.table_id
  pub is_dead : c'.is_dead ≡ c.is_dead
  pub pending : IsPending c.input → IsPending c'.input

-- The connections are there as before, each related to what it was.
pub record IsRewritten (R : Conn → Conn → Type 0) (m m' : Map Conn) : Type 0 where
  pub unique : Unique m'
  pub forth :
      (p : PlayerId) (c : Conn)
      → lookup p m ≡ some c
      → (c' : Conn) × (lookup p m' ≡ some c') × R c c'
  pub back :
      (p : PlayerId) (c' : Conn)
      → lookup p m' ≡ some c'
      → (c : Conn) × (lookup p m ≡ some c) × R c c'

-- The seats are as before, so the invariant of the server is kept.
pub rewritten-IsServer :
    (s : Server) (m : Map Conn)
    → IsServer s
    → IsRewritten SameSeat s.connections m
    → IsServer (record s { connections = m })
rewritten-IsServer s m v w = record {
  unique = w.unique;
  tables_unique = v.tables_unique;
  counted = v.counted;
  keyed = λ p c' e.
      let (c, e', same) = w.back p c' e in
      let (named, issued) = v.keyed p c e' in (same.player_id ∙ named, issued);
  pending = λ p c' e. let (c, e', same) = w.back p c' e in same.pending (v.pending p c e');
  rooms = λ tid t e.
      let room = v.rooms tid t e in
      record {
        numbered = room.numbered;
        issued = room.issued;
        in_order = room.in_order;
        funded = room.funded;
        connected = λ p seat.
            let (c, here, at) = room.connected p seat in
            let (c', here', same) = w.forth p c here in (c', here', same.table_id ∙ at);
      };
  alive = λ p c' e living.
      let (c, e', same) = w.back p c' e in
      let (t, at, seat) = v.alive p c e' (sym same.is_dead ∙ living) in
      (t, ap (λ k. lookup k s.tables) same.table_id ∙ at, seat);
}

-- The connection with other bytes to go out, and asking for what is asked.
abbrev pub Told : Conn → Conn → Type 0
Told c c' = (bytes : List ℕ) × (asked : Bool) × (c' ≡ record c { out = bytes; wants_write = asked })

pub Told-refl : (c : Conn) → Told c c
Told-refl c = (c.out, c.wants_write, refl)

-- Epoll is asked to tell when the socket can be written, if there is something to go out.
abbrev pub Hears : Conn → Type 0
Hears c = (c.out ≡ []) ⊎ (c.wants_write ≡ true)

-- So it is at every connection but that of the player, if there is one.
abbrev pub AllHear : Option PlayerId → Map Conn → Type 0
AllHear q m = (p : PlayerId) (c : Conn) → lookup p m ≡ some c → some p ≢ q → Hears c

pub update_interest-Hears : (c : Conn) → Hears (update_interest c)
unfolding update_interest
update_interest-Hears c = hears c.out
  where
    hears : (bytes : List ℕ) → Hears (update_interest (record c { out = bytes }))
    hears [] = inl refl
    hears (b ∷ more) = inr refl

-- The connection that is written anew asks for what it needs, or is the one left out.
pub insert-AllHear :
    (q : Option PlayerId) (m : Map Conn) (pid : PlayerId) (conn : Conn)
    → (some pid ≡ q) ⊎ Hears conn
    → AllHear q m
    → AllHear q (insert pid conn m)
insert-AllHear q m pid conn now h p c e other = elim (insert_cases p pid conn c m e) [
  | inr (away, e') ↦ h p c e' other
  | inl (here, same) ↦ elim now [
    | inl left_out ↦ absurd (other (ap (λ i. some i) here ∙ left_out))
    | inr hears ↦ subst Hears same hears
  ]
]

pub Told-SameSeat : (c c' : Conn) → Told c c' → SameSeat c c'
Told-SameSeat c c' (bytes, asked, e) = record {
  player_id = ap (λ (d : Conn). d.player_id) e;
  table_id = ap (λ (d : Conn). d.table_id) e;
  is_dead = ap (λ (d : Conn). d.is_dead) e;
  pending = λ p. subst IsPending (sym (ap (λ (d : Conn). d.input) e)) p;
}

pub weaken :
    (R Q : Conn → Conn → Type 0) (m m' : Map Conn)
    → ((c c' : Conn) → R c c' → Q c c')
    → IsRewritten R m m'
    → IsRewritten Q m m'
weaken R Q m m' f w = record {
  unique = w.unique;
  forth = λ p c e. let (c', e', r) = w.forth p c e in (c', e', f c c' r);
  back = λ p c' e'. let (c, e, r) = w.back p c' e' in (c, e, f c c' r);
}

-- One connection is written anew.
pub insert-IsRewritten :
    (R : Conn → Conn → Type 0) (m : Map Conn) (pid : PlayerId) (conn conn' : Conn)
    → ((c : Conn) → R c c)
    → Unique m
    → lookup pid m ≡ some conn
    → R conn conn'
    → IsRewritten R m (insert pid conn' m)
insert-IsRewritten R m pid conn conn' same u known r = record {
  unique = insert-Unique pid conn' m u;
  forth = λ p c e. elim (Bool-cases (p == pid)) [
    | inl here ↦
        let e_id = eq_of_== p pid here in
        let same_conn : conn ≡ c = ground (arith, known, e, ap (λ i. lookup i m) e_id) in
        (conn', ground (arith, lookup-insert p pid conn' m), subst (λ d. R d conn') same_conn r)
    | inr away ↦ (c, ground (arith, lookup-insert p pid conn' m, e), same c)
  ];
  back = λ p c' e. elim (insert_cases p pid conn' c' m e) [
    | inl (here, e') ↦ (conn, ap (λ i. lookup i m) here ∙ known, subst (R conn) e' r)
    | inr (away, other) ↦ (c', other, same c')
  ];
}
