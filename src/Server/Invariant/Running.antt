-- ===== src/Server/Invariant/Running.antt =====
-- engine/src/main.cc: the server, from its start on.
use poker_epoll.Base.{
  ℕ, suc, ◌+◌, ◌*◌, ◌≤◌, ◌<◌, ◌≡◌, refl, ◌∙◌, ◌⊎◌, none, inl, inr, List, Option, true, has_key,
  arith, u64_size, Outcome, done, Returns, subst,
}
use poker_epoll.Rules.{PlayerId, buy_in}
use poker_epoll.Table.Environment.{IsLawful}
use poker_epoll.Server.{Server, ServerEnv, new_server}
use poker_epoll.Server.Loop.{accept_client, client_event, ReadResult, WriteResults}
use poker_epoll.Server.Invariant.{IsServer}
use poker_epoll.Server.Invariant.Replies.{accept_client-IsServer, IsJoined}
use poker_epoll.Server.Invariant.Traffic.{AllHear}
use poker_epoll.Server.Invariant.Reading.Events.{GoesDown}
use poker_epoll.Server.Invariant.Reading.Events.{client_event-IsServer, IsLeft}

pub new_server-IsServer : IsServer new_server
unfolding new_server
new_server-IsServer = record {
  unique = tt;
  tables_unique = tt;
  counted = omega arith;
  keyed = λ pid conn e. absurd (ground (arith, e));
  pending = λ pid conn e. absurd (ground (arith, e));
  rooms = λ tid t e. absurd (ground (arith, e));
  alive = λ pid conn e living. absurd (ground (arith, e));
}

-- The servers that the loop comes to, and after how many connections: clients connect, and the events
-- of those who are connected are handled, in any order.
pub data Reached (env : ServerEnv) : ℕ → Server → Type 0 where
  begins : Reached env 0 new_server
  connects :
      {n : ℕ} {s s' : Server} (cfd : ℕ)
      → Reached env n s
      → accept_client env cfd s ≡ done s'
      → Reached env (suc n) s'
  serves :
      {n : ℕ} {s s' : Server} (pid : PlayerId) (reads : Option (List ReadResult))
      (writes : Option WriteResults)
      → Reached env n s
      → has_key pid s.connections ≡ true
      → client_event env pid reads writes s ≡ done s'
      → Reached env n s'

-- The server is in order, its counters are those after `n` connections, and every connection asks epoll for
-- what it needs.
abbrev pub IsCounted : ℕ → Server → Type 0
IsCounted n s =
    IsServer s × (s.next_player_id ≡ n + 1) × (s.next_table_id ≤ n + 1) × AllHear none s.connections

pub new_server-IsCounted : IsCounted 0 new_server
unfolding new_server
new_server-IsCounted =
    (new_server-IsServer, refl, omega arith, λ p c e other. absurd (ground (arith, e)))

pub IsJoined-IsCounted :
    (n : ℕ) (s s' : Server) → IsCounted n s → IsJoined s s' → IsCounted (suc n) s'
IsJoined-IsCounted n s s' (v, players, tables, hears) j = (
  j.server,
  omega (arith, players, j.next_player),
  omega (arith, tables, j.next_table),
  j.hears hears,
)

pub IsLeft-IsCounted :
    (n : ℕ) (pid : PlayerId) (s s' : Server) → IsCounted n s → IsLeft pid s s' → IsCounted n s'
IsLeft-IsCounted n pid s s' (v, players, tables, hears) l =
    (l.server, l.next ∙ players, omega (arith, tables, l.tables), l.hears hears)

-- In an event on the way, what was read came to what brings the server down.
abbrev pub WentDown : {env : ServerEnv} {n : ℕ} {s : Server} → Reached env n s → Type 0
WentDown begins = ⊥
WentDown (connects cfd r e) = WentDown r
WentDown {env = env} (serves {s = s} pid reads writes r here e) =
    WentDown r ⊎ GoesDown env pid reads s

module _ (env : ServerEnv) (lawful : IsLawful env.at_tables) where
  done_Returns :
      (P : Server → Type 0) (m : Outcome Server) (s : Server) → m ≡ done s → Returns P m → P s
  done_Returns P m s e r = subst (Returns P) e r

  pub Reached-IsServer :
      (n : ℕ) (s : Server) (r : Reached env n s)
      → buy_in * (n + 1) < u64_size
      → IsCounted n s ⊎ WentDown r
  unfolding new_server
  Reached-IsServer n s begins room = inl new_server-IsCounted
  Reached-IsServer n s' (connects {n = k} {s = s} cfd r e) room =
      elim (Reached-IsServer k s r (omega (arith, room))) [
        | inr down ↦ inr down
        | inl (v, players, tables, hears) ↦
            elim (accept_client-IsServer env lawful cfd s v (omega (arith, players, room))
              (omega (arith, tables, room))) [
                | inr (broken, crash) ↦ absurd (cc)
                | inl ends ↦
                    let j = done_Returns (IsJoined s) (accept_client env cfd s) s' e ends in
                    inl (IsJoined-IsCounted k s s' (v, players, tables, hears) j)
              ]
      ]
  Reached-IsServer n s' (serves {s = s} pid reads writes r here e) room =
      elim (Reached-IsServer n s r room) [
        | inr down ↦ inr (inl down)
        | inl (v, players, tables, hears) ↦
            elim (client_event-IsServer env lawful pid reads writes s v here
              (omega (arith, players, room))) [
                | inr down ↦ inr (inr down)
                | inl ends ↦
                    let l =
                      done_Returns (IsLeft pid s) (client_event env pid reads writes s) s' e ends in
                    inl (IsLeft-IsCounted n pid s s' (v, players, tables, hears) l)
              ]
      ]
