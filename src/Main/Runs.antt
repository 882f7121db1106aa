-- ===== src/Main/Runs.antt =====
-- engine/src/main.cc: the event loop, and the program from its start to its end.
use poker_epoll.Base.{
  ℕ, ◌+◌, ◌*◌, ◌≤◌, ◌<◌, ◌≡◌, refl, ap, sym, subst, ◌∙◌, ◌⊎◌, inl, inr, List, [], ◌∷◌, ◌++◌, map,
  Map, some, lookup, contains, true, Bool-cases, arith, u64_size, ◌==◌, done, Returns, Returns-done,
  Returns-map, Returns->>=,
}
use poker_epoll.Rules.{PlayerId, buy_in}
use poker_epoll.Table.Environment.{IsLawful}
use poker_epoll.Server.{Conn}
use poker_epoll.Server.Invariant.Running.{Reached, begins, IsCounted, new_server-IsCounted}
use poker_epoll.Main.{
  EpollEvent, MainEnv, Process, WaitResult, batch, interrupted, wait_error, Exit, returned, Opening,
  handle_batch, shut_down, event_loop, open_sockets, started_at, run_main,
}
use poker_epoll.Main.Batches.{IsBatch, arrivals, handle_batch-Proceeds, BatchDown}

-- Every batch tells of registered descriptors, each once, at the server that it comes to.
abbrev pub IsRun : MainEnv → List WaitResult → Process → Type 0
IsRun env [] p = Unit
IsRun env (interrupted ∷ rest) p = IsRun env rest p
IsRun env (wait_error ∷ rest) p = Unit
IsRun env (batch events ∷ rest) p =
    IsBatch env p events
    × ((p' : Process) → handle_batch env events p ≡ done p' → IsRun env rest p')

-- How many clients a run may connect.
abbrev pub all_arrivals : List WaitResult → ℕ
all_arrivals [] = 0
all_arrivals (interrupted ∷ rest) = all_arrivals rest
all_arrivals (wait_error ∷ rest) = all_arrivals rest
all_arrivals (batch events ∷ rest) = arrivals events + all_arrivals rest

-- The program has ended, at a server that at most so many connections lead to. If it was told to end, the
-- descriptors of the connections are closed, that of epoll, and that for new connections.
pub record Ends (env : MainEnv) (most epfd listenfd : ℕ) (exit : Exit) (p : Process) : Type 0 where
  pub count : ℕ
  pub bounded : count ≤ most
  pub reached : Reached env.of_server count p.server
  pub counted : IsCounted count p.server
  pub conns :
      exit ≡ returned
      → (pid : PlayerId) (conn : Conn) → lookup pid p.server.connections ≡ some conn
      → contains conn.fd p.closed ≡ true
  pub epoll : exit ≡ returned → contains epfd p.closed ≡ true
  pub listening : exit ≡ returned → contains listenfd p.closed ≡ true

contains-fds :
    (m : Map Conn) (more : List ℕ) (pid : PlayerId) (conn : Conn)
    → lookup pid m ≡ some conn
    → contains conn.fd (map (λ (e : ℕ × Conn). e.1.fd) m ++ more) ≡ true
contains-fds [] more pid conn known = absurd (ground (arith, known))
contains-fds ((k, c) ∷ m) more pid conn known = elim (Bool-cases (pid == k)) [
  | inl here ↦
      let same : c ≡ conn = ground (arith, known) in ground (arith, ap (λ (d : Conn). d.fd) same)
  | inr away ↦ ground (arith, contains-fds m more pid conn (ground (arith, known)))
]

-- A run comes to a batch with an event that brings the server down, at the server that the batches before have
-- led to.
pub data RunDown (env : MainEnv) : List WaitResult → Process → Type 0 where
  in_batch :
      {p : Process} (events : List EpollEvent) (rest : List WaitResult)
      → BatchDown env events p
      → RunDown env (batch events ∷ rest) p
  after_batch :
      {p p1 : Process} (events : List EpollEvent) (rest : List WaitResult)
      → handle_batch env events p ≡ done p1
      → RunDown env rest p1
      → RunDown env (batch events ∷ rest) p
  after_interrupt :
      {p : Process} (rest : List WaitResult)
      → RunDown env rest p
      → RunDown env (interrupted ∷ rest) p

module _ (env : MainEnv) (lawful : IsLawful env.of_server.at_tables) where
  -- Whatever `epoll_wait` returns on a server that is reached, every batch with registered descriptors, each
  -- once, as long as the buy-ins of all who may have connected do not overflow: the loop ends, by an error
  -- of `epoll_wait` or because it was told to, at a server that is reached; in the latter case every connection
  -- that is there is closed, and the two descriptors of the program. Or one of the events, at the server that
  -- those before it have led to, comes to what brings the server down.
  pub event_loop-Ends :
      (waits : List WaitResult) (n : ℕ) (p : Process)
      → Reached env.of_server n p.server
      → IsCounted n p.server
      → IsRun env waits p
      → buy_in * (n + all_arrivals waits + 1) < u64_size
      → Returns
          (λ r. Ends env (n + all_arrivals waits) p.epfd p.listenfd r.0 r.1)
          (event_loop env waits p)
        ⊎ RunDown env waits p
  unfolding event_loop shut_down
  event_loop-Ends [] n p r c run room = inl (record {
    count = n;
    bounded = omega arith;
    reached = r;
    counted = c;
    conns = λ told pid conn known.
        ground (arith, contains-fds p.server.connections p.closed pid conn known);
    epoll = λ told. ground arith;
    listening = λ told. ground arith;
  })
  event_loop-Ends (interrupted ∷ rest) n p r c run room =
      elim (event_loop-Ends rest n p r c run room) [
        | inr down ↦ inr (after_interrupt rest down)
        | inl ends ↦ inl ends
      ]
  event_loop-Ends (wait_error ∷ rest) n p r c run room = inl (record {
    count = n;
    bounded = omega arith;
    reached = r;
    counted = c;
    conns = λ told pid conn known. cc;
    epoll = λ told. cc;
    listening = λ told. cc;
  })
  event_loop-Ends (batch events ∷ rest) n p r c (b, later) room =
      elim (handle_batch-Proceeds env lawful events n p r c b (omega (arith, room))) [
        | inr down ↦ inr (in_batch events rest down)
        | inl ends ↦
            let (p1, ran, l) = Returns-done _ (handle_batch env events p) ends in
            elim (event_loop-Ends rest l.leads.count p1 l.leads.reached l.leads.counted
              (later p1 ran) (omega (arith, room, l.leads.bounded))) [
                | inr down ↦ inr (after_batch events rest ran down)
                | inl more ↦ inl (
                    rw (ran, event_loop)
                      (Returns-map _ _ (event_loop env rest p1) more (λ r e. record {
                        count = e.count;
                        bounded = omega (arith, l.leads.bounded, e.bounded);
                        reached = e.reached;
                        counted = e.counted;
                        conns = e.conns;
                        epoll = λ told. ap (λ k. contains k r.1.closed) (sym l.epfd) ∙ e.epoll told;
                        listening = λ told.
                            ap (λ k. contains k r.1.closed) (sym l.listenfd) ∙ e.listening told;
                      })))
              ]
      ]

  -- A program whose sockets open, whatever `epoll_wait` returns, every batch with registered descriptors,
  -- each once, as long as the buy-ins of all who may have connected do not overflow: it ends, and never
  -- follows a pointer to a connection that is gone; when it was told to end, it closes every
  -- connection that is there and its two descriptors. Or one of the events, at the server that those before it
  -- have led to, comes to what brings the server down: a header whose length overflows, or a hand
  -- that is started, after an action or with a new client, at a table whose engine is gone or whose button has left.
  pub run_main-Ends :
      (o : Opening) (epfd listenfd : ℕ) (waits : List WaitResult)
      → open_sockets o ≡ some (epfd, listenfd)
      → IsRun env waits (started_at (epfd, listenfd))
      → buy_in * (all_arrivals waits + 1) < u64_size
      → Returns
          (λ r. (p : Process) × (r.1 ≡ some p) × Ends env (all_arrivals waits) epfd listenfd r.0 p)
          (run_main env o waits)
        ⊎ RunDown env waits (started_at (epfd, listenfd))
  unfolding run_main
  run_main-Ends o epfd listenfd waits opened run room =
      let none_yet : 0 + all_arrivals waits ≡ all_arrivals waits = omega arith in
      elim (event_loop-Ends waits 0 (started_at (epfd, listenfd)) begins new_server-IsCounted run
        (omega (arith, room))) [
          | inr down ↦ inr down
          | inl ends ↦ inl (
              rw (opened, run_main)
                (Returns->>= _ _ (event_loop env waits (started_at (epfd, listenfd)))
                  (λ r. done (r.0, some r.1)) ends
                  (λ r e. (r.1, refl, subst (λ n. Ends env n epfd listenfd r.0 r.1) none_yet e))))
        ]
