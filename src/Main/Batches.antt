-- ===== src/Main/Batches.antt =====
-- engine/src/main.cc: the loop over the events of a batch. It only does what the theorems on the
-- server are about, and never follows a pointer to a connection that is gone.
use poker_epoll.Base.{
  ℕ, ◌+◌, ◌*◌, ◌<◌, ◌≡◌, ◌≢◌, refl, ap, sym, ◌∙◌, ◌⊎◌, inl, inr, List, [], ◌∷◌, has_key, length,
  true, false, Bool-cases, All, arith, u64_size, ◌%◌, ◌^◌, ◌==◌, if◌then◌else◌, done, Returns,
  Returns-done, Returns-map, Returns->>=,
}
use poker_epoll.Rules.{PlayerId, buy_in}
use poker_epoll.Table.Environment.{IsLawful}
use poker_epoll.Server.Invariant.Running.{Reached, IsCounted}
use poker_epoll.Main.{
  MainEnv, Process, EventData, descriptor, pointer, EpollEvent, data_fd, error_path, accept_loop,
  client_socket, handle_event, handle_batch,
}
use poker_epoll.Main.Steps.{
  AcceptDown, ClientDown, Leads, Everyone, stays-Leads, widen-Leads, accept_loop-Leads,
  client_socket-Leads,
}

-- The union is one that epoll was given: the descriptor for new connections, or a pointer to a
-- connection that is there.
abbrev pub IsRegistered : MainEnv → Process → EventData → Type 0
IsRegistered env p (descriptor fd) = fd ≡ p.listenfd
IsRegistered env p (pointer pid) = has_key pid p.server.connections ≡ true

-- A batch tells of every descriptor once.
abbrev pub IsBatch : MainEnv → Process → List EpollEvent → Type 0
IsBatch env p [] = Unit
IsBatch env p (e ∷ rest) =
    IsRegistered env p e.about
    × All (λ (other : EpollEvent). other.about ≢ e.about) rest
    × IsBatch env p rest

-- How many clients a batch may connect.
abbrev pub arrivals : List EpollEvent → ℕ
arrivals [] = 0
arrivals (e ∷ rest) = length e.accepts + arrivals rest

-- The union that is left out of what is kept.
abbrev Apart : EventData → PlayerId → Type 0
Apart about p = pointer p ≢ about

-- The process after events that may connect so many clients, with the same two descriptors.
pub record Proceeds (env : MainEnv) (Kept : PlayerId → Type 0) (most : ℕ) (before p : Process)
    : Type 0 where
  pub leads : Leads env.of_server Kept most before.server p.server
  pub listenfd : p.listenfd ≡ before.listenfd
  pub epfd : p.epfd ≡ before.epfd

-- What is registered stays so where the connections are kept.
Proceeds-IsRegistered :
    (env : MainEnv) (Kept : PlayerId → Type 0) (most : ℕ) (before p : Process) (about : EventData)
    → Proceeds env Kept most before p
    → ((pid : PlayerId) → about ≡ pointer pid → Kept pid)
    → IsRegistered env before about
    → IsRegistered env p about
Proceeds-IsRegistered env Kept most before p (descriptor fd) l k reg = reg ∙ sym l.listenfd
Proceeds-IsRegistered env Kept most before p (pointer pid) l k here =
    l.leads.others pid (k pid refl) here

Proceeds-IsBatch :
    (env : MainEnv) (most : ℕ) (before p : Process) (about : EventData) (events : List EpollEvent)
    → Proceeds env (Apart about) most before p
    → All (λ (other : EpollEvent). other.about ≢ about) events
    → IsBatch env before events
    → IsBatch env p events
Proceeds-IsBatch env most before p about [] l apart b = tt
Proceeds-IsBatch env most before p about (e ∷ rest) l (away, apart) (reg, once, b) = (
  Proceeds-IsRegistered env (Apart about) most before p e.about l
      (λ pid same other. away (same ∙ other)) reg,
  once,
  Proceeds-IsBatch env most before p about rest l apart b,
)

-- Nobody is sure to be connected still: who a batch tells of may go.
abbrev pub Nobody : PlayerId → Type 0
Nobody p = ⊥

-- An event comes to what brings the server down: in a new connection, also where the lower half of the pointer
-- to a client is the number of the descriptor for those, or in what is read from a client.
pub data EventDown (env : MainEnv) (e : EpollEvent) (p : Process) : Type 0 where
  in_accept :
      data_fd env e.about ≡ p.listenfd
      → AcceptDown env.of_server e.accepts p.server
      → EventDown env e p
  in_client :
      (pid : PlayerId)
      → e.about ≡ pointer pid
      → ClientDown env.of_server e pid p.server
      → EventDown env e p

-- A batch comes there, at the server that the events before have led to.
pub data BatchDown (env : MainEnv) : List EpollEvent → Process → Type 0 where
  at_event :
      {p : Process} (e : EpollEvent) (rest : List EpollEvent)
      → e.is_broken ≡ false
      → EventDown env e p
      → BatchDown env (e ∷ rest) p
  after_event :
      {p p1 : Process} (e : EpollEvent) (rest : List EpollEvent)
      → handle_event env e p ≡ done p1
      → BatchDown env rest p1
      → BatchDown env (e ∷ rest) p

module _ (env : MainEnv) (lawful : IsLawful env.of_server.at_tables) where
  -- New connections are accepted: epoll tells of their descriptor, or of a pointer that is taken for it.
  newcomers-Leads :
      (e : EpollEvent) (about : EventData) (n : ℕ) (p : Process)
      → Reached env.of_server n p.server
      → IsCounted n p.server
      → e.about ≡ about
      → data_fd env about ≡ p.listenfd
      → buy_in * (n + length e.accepts + 1) < u64_size
      → Returns
          (Leads env.of_server (Apart about) (n + length e.accepts) p.server)
          (accept_loop env.of_server e.accepts p.server)
        ⊎ EventDown env e p
  newcomers-Leads e about n p r c is new room =
      elim (accept_loop-Leads env.of_server lawful e.accepts n p.server r c room) [
        | inr down ↦ inr (in_accept (ap (data_fd env) is ∙ new) down)
        | inl ends ↦ inl (
            Returns-map _ _ (accept_loop env.of_server e.accepts p.server) ends (λ s l.
              widen-Leads env.of_server Everyone (Apart about) _ _ p.server s (omega arith)
                (λ p k. tt) l))
      ]

  -- The descriptor for new connections, or the socket of a client.
  socket-Leads :
      (e : EpollEvent) (about : EventData) (n : ℕ) (p : Process)
      → Reached env.of_server n p.server
      → IsCounted n p.server
      → e.about ≡ about
      → IsRegistered env p about
      → buy_in * (n + length e.accepts + 1) < u64_size
      → Returns (Leads env.of_server (Apart about) (n + length e.accepts) p.server) (
          if data_fd env about == p.listenfd
          then accept_loop env.of_server e.accepts p.server
          else client_socket env.of_server e about p.server)
        ⊎ EventDown env e p
  unfolding data_fd
  socket-Leads e (descriptor fd) n p r c is reg room =
      let new : (fd == p.listenfd) ≡ true = ground (arith, reg) in
      rw new (newcomers-Leads e (descriptor fd) n p r c is reg room)
  socket-Leads e (pointer pid) n p r c is here room =
      elim (Bool-cases (env.address pid % 2 ^ 32 == p.listenfd)) [
        | inl new ↦ rw new (newcomers-Leads e (pointer pid) n p r c is (ground (arith, new)) room)
        | inr client ↦
            elim (client_socket-Leads env.of_server lawful e pid n p.server r c here
              (omega (arith, room))) [
                | inr down ↦ inr (in_client pid is down)
                | inl ends ↦ inl (
                    rw client (
                      Returns-map _ _ (client_socket env.of_server e (pointer pid) p.server) ends
                        (λ s l.
                          widen-Leads env.of_server (λ q. q ≢ pid) (Apart (pointer pid)) _ _
                            p.server s (omega arith) (λ q k same. k (ap (λ i. pointer i) same)) l)))
              ]
      ]

  handle_event-Proceeds :
      (e : EpollEvent) (n : ℕ) (p : Process)
      → Reached env.of_server n p.server
      → IsCounted n p.server
      → IsRegistered env p e.about
      → buy_in * (n + length e.accepts + 1) < u64_size
      → Returns (Proceeds env (Apart e.about) (n + length e.accepts) p) (handle_event env e p)
        ⊎ ((e.is_broken ≡ false) × EventDown env e p)
  unfolding handle_event error_path client_socket
  handle_event-Proceeds e n p r c reg room = elim (Bool-cases e.is_broken) [
    | inl broken ↦ inl (rw (broken, handle_event) (aside (data_fd env e.about)))
    | inr sound ↦ elim (socket-Leads e e.about n p r c refl reg room) [
      | inr down ↦ inr (sound, down)
      | inl ends ↦ inl (
          rw (sound, handle_event)
            (Returns->>= (Leads env.of_server (Apart e.about) (n + length e.accepts) p.server)
              (Proceeds env (Apart e.about) (n + length e.accepts) p) _
              (λ s. done (record p { server = s })) ends
              (λ s l. record { leads = l; listenfd = refl; epfd = refl })))
    ]
  ]
    where
      aside :
          (fd : ℕ)
          → Proceeds env
              (Apart e.about)
              (n + length e.accepts)
              p
              (if fd == p.listenfd then p else record p { closed = fd ∷ p.closed })
      aside fd =
          let l = stays-Leads env.of_server (Apart e.about) n (length e.accepts) p.server r c in
          elim (Bool-cases (fd == p.listenfd)) [
            | inl same ↦ rw same (record { leads = l; listenfd = refl; epfd = refl })
            | inr other ↦ rw other (record { leads = l; listenfd = refl; epfd = refl })
          ]

  -- Whatever events a batch tells of, each of another descriptor that is registered, on a server that is
  -- reached and in order, as long as the buy-ins of all who may have connected do not overflow: the loop over the
  -- batch ends, never follows a pointer to a connection that is gone, and comes to a server that is reached by
  -- connections and events of clients and in order; or one of the events, at the server that those before it
  -- have led to, comes to what brings the server down: a header whose length overflows, or a hand
  -- that is started, after an action or with a new client, at a table whose engine is gone or whose button has left.
  pub handle_batch-Proceeds :
      (events : List EpollEvent) (n : ℕ) (p : Process)
      → Reached env.of_server n p.server
      → IsCounted n p.server
      → IsBatch env p events
      → buy_in * (n + arrivals events + 1) < u64_size
      → Returns (Proceeds env Nobody (n + arrivals events) p) (handle_batch env events p)
        ⊎ BatchDown env events p
  unfolding handle_batch
  handle_batch-Proceeds [] n p r c b room = inl (record {
    leads = stays-Leads env.of_server Nobody n 0 p.server r c;
    listenfd = refl;
    epfd = refl;
  })
  handle_batch-Proceeds (e ∷ rest) n p r c (reg, once, b) room =
      elim (handle_event-Proceeds e n p r c reg (omega (arith, room))) [
        | inr (sound, down) ↦ inr (at_event e rest sound down)
        | inl ends ↦
            let (p1, ran, l) = Returns-done _ (handle_event env e p) ends in
            elim (handle_batch-Proceeds rest l.leads.count p1 l.leads.reached l.leads.counted
              (Proceeds-IsBatch env _ p p1 e.about rest l once b)
              (omega (arith, room, l.leads.bounded))) [
                | inr down ↦ inr (after_event e rest ran down)
                | inl more ↦ inl (
                    rw (ran, handle_batch)
                      (Returns-map _ _ (handle_batch env rest p1) more (λ p' l'. record {
                        leads = record {
                          count = l'.leads.count;
                          bounded = omega (arith, l.leads.bounded, l'.leads.bounded);
                          reached = l'.leads.reached;
                          counted = l'.leads.counted;
                          others = λ q nobody. absurd nobody;
                        };
                        listenfd = l'.listenfd ∙ l.listenfd;
                        epfd = l'.epfd ∙ l.epfd;
                      })))
              ]
      ]
