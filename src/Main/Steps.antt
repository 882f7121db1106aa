-- ===== src/Main/Steps.antt =====
-- engine/src/main.cc: the loop over the new connections, and an event of a client, from a server that is
-- reached by connections and events of clients.
use poker_epoll.Base.{
  done, fault, ℕ, suc, ◌+◌, ◌*◌, ◌≤◌, ◌<◌, ◌≡◌, ◌≢◌, ◌⊎◌, inl, inr, List, [], ◌∷◌, lookup, has_key,
  length, true, Option-cases, arith, u64_size, Returns, Returns-done, Returns-map,
}
use poker_epoll.Rules.{PlayerId, buy_in}
use poker_epoll.Table.Environment.{IsLawful}
use poker_epoll.Server.{Server, ServerEnv, TableId}
use poker_epoll.Server.Connections.{handle_connect}
use poker_epoll.Server.Loop.{accept_client, client_event}
use poker_epoll.Server.Invariant.Actions.{IsBroken}
use poker_epoll.Server.Invariant.Replies.{accept_client-IsServer, IsJoined}
use poker_epoll.Server.Invariant.Reading.Events.{client_event-IsServer, IsLeft, GoesDown}
use poker_epoll.Server.Invariant.Running.{
  Reached, connects, serves, IsCounted, IsJoined-IsCounted, IsLeft-IsCounted,
}
use poker_epoll.Main.{
  AcceptResult, accepted, nothing_now, accept_error, pointer, EpollEvent, accept_loop,
  client_socket, when,
}

-- The loop over the new connections comes, from this server on, to a client with whom a hand is started at a table
-- whose engine is gone or whose button has left, with which the server goes down.
pub data AcceptDown (env : ServerEnv) : List AcceptResult → Server → Type 0 where
  at_client :
      {s : Server} (cfd : ℕ) (rest : List AcceptResult) (tid : TableId)
      → IsBroken (handle_connect env cfd s).2 tid
      → accept_client env cfd s ≡ fault
      → AcceptDown env (accepted cfd ∷ rest) s
  after_client :
      {s s1 : Server} (cfd : ℕ) (rest : List AcceptResult)
      → accept_client env cfd s ≡ done s1
      → AcceptDown env rest s1
      → AcceptDown env (accepted cfd ∷ rest) s

-- An event of a client comes, in what is read, to what brings the server down.
abbrev pub ClientDown : ServerEnv → EpollEvent → PlayerId → Server → Type 0
ClientDown env e pid s = GoesDown env pid (when e.is_input e.reads) s

-- The server is one that connections and events of clients lead to, after at most so many connections, and the
-- connections for which the test holds are still there.
pub record Leads (env : ServerEnv) (Kept : PlayerId → Type 0) (most : ℕ) (before s : Server)
    : Type 0 where
  pub count : ℕ
  pub bounded : count ≤ most
  pub reached : Reached env count s
  pub counted : IsCounted count s
  pub others :
      (p : PlayerId) → Kept p → has_key p before.connections ≡ true → has_key p s.connections ≡ true

abbrev pub Everyone : PlayerId → Type 0
Everyone p = Unit

pub stays-Leads :
    (env : ServerEnv) (Kept : PlayerId → Type 0) (n more : ℕ) (s : Server)
    → Reached env n s
    → IsCounted n s
    → Leads env Kept (n + more) s s
stays-Leads env Kept n more s r c = record {
  count = n;
  bounded = omega arith;
  reached = r;
  counted = c;
  others = λ p k h. h;
}

pub widen-Leads :
    (env : ServerEnv) (Kept Kept' : PlayerId → Type 0) (most most' : ℕ) (before s : Server)
    → most ≤ most'
    → ((p : PlayerId) → Kept' p → Kept p)
    → Leads env Kept most before s
    → Leads env Kept' most' before s
widen-Leads env Kept Kept' most most' before s le k l = record {
  count = l.count;
  bounded = omega (arith, l.bounded, le);
  reached = l.reached;
  counted = l.counted;
  others = λ p kept. l.others p (k p kept);
}

module _ (env : ServerEnv) (lawful : IsLawful env.at_tables) where
  pub accept_loop-Leads :
      (accepts : List AcceptResult) (n : ℕ) (s : Server)
      → Reached env n s
      → IsCounted n s
      → buy_in * (n + length accepts + 1) < u64_size
      → Returns (Leads env Everyone (n + length accepts) s) (accept_loop env accepts s)
        ⊎ AcceptDown env accepts s
  unfolding accept_loop
  accept_loop-Leads [] n s r c room = inl (stays-Leads env Everyone n 0 s r c)
  accept_loop-Leads (nothing_now ∷ rest) n s r c room =
      inl (stays-Leads env Everyone n (length (nothing_now ∷ rest)) s r c)
  accept_loop-Leads (accept_error ∷ rest) n s r c room =
      inl (stays-Leads env Everyone n (length (accept_error ∷ rest)) s r c)
  accept_loop-Leads (accepted cfd ∷ rest) n s r c room =
      let (v, players, tables, hears) = c in
      elim (accept_client-IsServer env lawful cfd s v (omega (arith, players, room))
        (omega (arith, tables, room))) [
          | inr ((tid, broken), crash) ↦ inr (at_client cfd rest tid broken crash)
          | inl ends ↦
              let (s1, e, j) = Returns-done (IsJoined s) (accept_client env cfd s) ends in
              elim (accept_loop-Leads rest (suc n) s1 (connects cfd r e)
                (IsJoined-IsCounted n s s1 c j) (omega (arith, room))) [
                  | inr down ↦ inr (after_client cfd rest e down)
                  | inl more ↦ inl (
                      rw (e, accept_loop)
                        (Returns-map _ _ (accept_loop env rest s1) more (λ s' l. record {
                          count = l.count;
                          bounded = omega (arith, l.bounded);
                          reached = l.reached;
                          counted = l.counted;
                          others = λ p k h. l.others p k (j.others p h);
                        })))
                ]
        ]

  pub client_socket-Leads :
      (e : EpollEvent) (pid : PlayerId) (n : ℕ) (s : Server)
      → Reached env n s
      → IsCounted n s
      → has_key pid s.connections ≡ true
      → buy_in * (n + 1) < u64_size
      → Returns (Leads env (λ p. p ≢ pid) n s) (client_socket env e (pointer pid) s)
        ⊎ ClientDown env e pid s
  unfolding client_socket
  client_socket-Leads e pid n s r c here room = elim (Option-cases (lookup pid s.connections)) [
    | inl gone ↦ absurd (ground arith)
    | inr (conn, known) ↦
        let (v, players, tables, hears) = c in
        let reads = when e.is_input e.reads in
        let writes = when e.is_output e.writes in
        elim (client_event-IsServer env lawful pid reads writes s v here
          (omega (arith, players, room))) [
            | inr down ↦ inr down
            | inl ends ↦
                let (s', ran, l) =
                  Returns-done (IsLeft pid s) (client_event env pid reads writes s) ends in
                inl (
                  rw (known, client_socket)
                    (rw ran (record {
                      count = n;
                      bounded = omega arith;
                      reached = serves pid reads writes r here ran;
                      counted = IsLeft-IsCounted n pid s s' c l;
                      others = l.others;
                    })))
          ]
  ]
