-- ===== src/Server/Invariant/Reading/Loops.antt =====
-- engine/src/main.cc: the read loop and the loop over the messages, from a server that is in order.
use poker_epoll.Base.{
  ℕ, zero, suc, ◌*◌, ◌<◌, ◌≡◌, refl, ap, sym, subst, ◌∙◌, ◌⊎◌, List, [], ◌∷◌, ◌++◌, ◌==◌, none,
  some, Bool, true, false, lookup, has_key, erase, if◌then◌else◌, arith, u64_size, length, Returns,
  Returns-done, Option-cases, Bool-cases, inl, inr,
}
use poker_epoll.Rules.{PlayerId, buy_in}
use poker_epoll.Frames.{Input}
use poker_epoll.Frames.RoundTrip.{idle}
use poker_epoll.Frames.Pending.{IsPending, waits, takes, overflows, next_lem, grown-IsPending}
use poker_epoll.Table.Environment.{IsLawful}
use poker_epoll.Server.{Conn, Server, ServerEnv}
use poker_epoll.Server.Connections.{handle_close, leave_table}
use poker_epoll.Server.Loop.{
  handle_message, message_loop, receive, read_loop, ReadResult, bytes, end_of_input, would_block,
  read_error,
}
use poker_epoll.Server.Invariant.Comings.{handle_close-IsServer}
use poker_epoll.Players.Seating.{Unique, lookup-erase}
use poker_epoll.Server.Invariant.Handling.{Carries}
use poker_epoll.Server.Invariant.Replies.{handle_message-Carries}
use poker_epoll.Server.Invariant.Reading.{
  with_input, MessageDown, handled, overflowed, stranded, ReadDown, in_chunk, after_chunk, Listens,
  Around, Carries-Around, with_input-Listens, ran_message,
}

handle_close-counters :
    (id : PlayerId) (s : Server)
    → ((handle_close id s).next_player_id ≡ s.next_player_id)
      × ((handle_close id s).next_table_id ≡ s.next_table_id)
unfolding handle_close leave_table
handle_close-counters id s = elim (Option-cases (lookup id s.connections)) [
  | inl gone ↦ rw (gone, handle_close) (refl, refl)
  | inr (conn, known) ↦ elim (Bool-cases (conn.table_id == 0)) [
    | inl nowhere ↦ rw (known, handle_close) (rw (nowhere, leave_table) (refl, refl))
    | inr somewhere ↦ elim (Option-cases (lookup conn.table_id s.tables)) [
      | inl none_there ↦
          rw (known, handle_close) (rw (somewhere, leave_table) (rw none_there (refl, refl)))
      | inr (t, there) ↦
          rw (known, handle_close) (rw (somewhere, leave_table) (rw there (refl, refl)))
    ]
  ]
]

-- What is left of an event: whether the connection is there, and the server.
abbrev pub Remains : PlayerId → Server → Bool × Server → Type 0
Remains pid before r =
    Around pid before r.1
    × (r.0 ≡ true → has_key pid r.1.connections ≡ true)
    × (r.0 ≡ false → lookup pid r.1.connections ≡ none)

handle_close-lookup :
    (id p : PlayerId) (s : Server)
    → Unique s.connections
    → lookup p (handle_close id s).connections ≡ (if p == id then none else lookup p s.connections)
unfolding handle_close leave_table
handle_close-lookup id p s u = elim (Option-cases (lookup id s.connections)) [
  | inl gone ↦ rw (gone, handle_close) (unchanged gone)
  | inr (conn, known) ↦ elim (Bool-cases (conn.table_id == 0)) [
    | inl nowhere ↦ rw (known, handle_close) (rw (nowhere, leave_table) erased)
    | inr somewhere ↦ elim (Option-cases (lookup conn.table_id s.tables)) [
      | inl none_there ↦
          rw (known, handle_close) (rw (somewhere, leave_table) (rw none_there erased))
      | inr (t, there) ↦ rw (known, handle_close) (rw (somewhere, leave_table) (rw there erased))
    ]
  ]
]
  where
    erased : lookup p (erase id s.connections) ≡ (if p == id then none else lookup p s.connections)
    erased = lookup-erase p id s.connections u

    unchanged :
        lookup id s.connections ≡ none
        → lookup p s.connections ≡ (if p == id then none else lookup p s.connections)
    unchanged gone = ground (arith, gone, λ (q : p ≡ id). ap (λ i. lookup i s.connections) q)

-- A connection that is closed.
pub closed-Remains :
    (pid : PlayerId) (before s : Server)
    → Around pid before s
    → Remains pid before (false, handle_close pid s)
closed-Remains pid before s a =
    let (players, tables) = handle_close-counters pid s in
    let at : (p : PlayerId)
        → lookup p (handle_close pid s).connections
          ≡ (if p == pid then none else lookup p s.connections) =
      λ p. handle_close-lookup pid p s a.server.unique in
    (
      record {
        server = handle_close-IsServer pid s a.server;
        next = players ∙ a.next;
        tables = tables ∙ a.tables;
        others = λ p other h. ground (arith, at p, a.others p other h, other);
        hears = λ h p c e other. elim (Bool-cases (p == pid)) [
          | inl gone ↦ absurd (ground (arith, at p))
          | inr kept ↦ a.hears h p c (ground (arith, at p)) other
        ];
      },
      λ h. cc,
      λ h. ground (arith, at pid),
    )

module _ (env : ServerEnv) (lawful : IsLawful env.at_tables) (pid : PlayerId) (before : Server)
    (room : buy_in * before.next_player_id < u64_size) where
  -- After a message was handled, the parser is where it was.
  after_message :
      (s : Server) (conn : Conn) (rest : List ℕ) (s' : Server)
      → lookup pid s.connections ≡ some (record conn { input = idle rest })
      → Around pid before s
      → Carries (some pid) s s'
      → (l : Listens pid before s') × (l.conn.input ≡ idle rest)
  after_message s conn rest s' known a c =
      let (conn', known', (out, asked, told)) =
        c.conns.forth pid (record conn { input = idle rest }) known in
      let same : conn'.input ≡ idle rest = ap (λ (d : Conn). d.input) told in
      (
        record {
          around = Carries-Around pid before s s' a c;
          conn = conn';
          known = known';
          pending = subst IsPending (sym same) (inl (refl, refl));
        },
        same,
      )

  message_loop-Listens :
      (fuel : ℕ) (s : Server) (l : Listens pid before s)
      → length l.conn.input.buffer < fuel
      → Returns (Listens pid before) (message_loop fuel env pid s) ⊎ MessageDown env pid s
  unfolding message_loop with_input-Listens
  message_loop-Listens zero s l enough = absurd (omega (arith, enough))
  message_loop-Listens (suc fuel) s l enough = elim (next_lem l.conn.input l.pending) [
    | waits c ran p same ↦
        let saw = ran_message pid s l.conn none c l.known ran in
        inl (rw (saw, message_loop) (with_input-Listens pid before s l.conn c l.around l.known p))
    | overflows over ↦ inr (overflowed l.conn l.known over)
    | takes msg rest ran there long shorter ↦
        let s1 = with_input pid l.conn (idle rest) s in
        let l1 =
          with_input-Listens pid before s l.conn (idle rest) l.around l.known (inl (refl, refl)) in
        let took = ran_message pid s l.conn (some msg) (idle rest) l.known ran in
        elim (handle_message-Carries env lawful pid msg s1 l1.around.server
          (ground (arith, l1.known)) (omega (arith, l.around.next, room))) [
            | inr (strands, crash) ↦ inr (stranded msg took strands crash)
            | inl ends ↦
                let (s2, handles, c) =
                  Returns-done (Carries (some pid) s1) (handle_message env pid msg s1) ends in
                let (l2, same) = after_message s1 l.conn rest s2 l1.known l1.around c in
                let fewer : length l2.conn.input.buffer ≡ length rest =
                  ap {B = ℕ} (λ (i : Input). length i.buffer) same in
                elim (message_loop-Listens fuel s2 l2 (omega (arith, fewer, shorter, enough))) [
                  | inl later ↦ inl (rw (took, message_loop) (rw handles later))
                  | inr down ↦ inr (handled msg took handles down)
                ]
          ]
  ]

  receive-Listens :
      (chunk : List ℕ) (s : Server)
      → Listens pid before s
      → Returns (Listens pid before) (receive env pid chunk s)
        ⊎ ((conn : Conn) × (lookup pid s.connections ≡ some conn)
            × MessageDown env pid
                (with_input pid conn (record conn.input { buffer = conn.input.buffer ++ chunk }) s))
  unfolding receive with_input-Listens
  receive-Listens chunk s l =
      let grown = record l.conn.input { buffer = l.conn.input.buffer ++ chunk } in
      let s1 = with_input pid l.conn grown s in
      let l1 =
        with_input-Listens pid before s l.conn grown l.around l.known
          (grown-IsPending l.conn.input chunk l.pending) in
      elim (message_loop-Listens (suc (length grown.buffer)) s1 l1 (omega arith)) [
        | inl ends ↦ inl (rw (l.known, receive) ends)
        | inr down ↦ inr (l.conn, l.known, down)
      ]

  listening : (s : Server) → Listens pid before s → Remains pid before (true, s)
  listening s l = (l.around, (λ h. ground (arith, l.known)), λ h. cc)

  pub read_loop-Listens :
      (reads : List ReadResult) (s : Server)
      → Listens pid before s
      → Returns (Remains pid before) (read_loop env pid reads s) ⊎ ReadDown env pid reads s
  unfolding read_loop
  read_loop-Listens [] s l = inl (listening s l)
  read_loop-Listens (would_block ∷ rest) s l = inl (listening s l)
  read_loop-Listens (end_of_input ∷ rest) s l = inl (closed-Remains pid before s l.around)
  read_loop-Listens (read_error ∷ rest) s l = inl (closed-Remains pid before s l.around)
  read_loop-Listens (bytes chunk ∷ rest) s l = elim (receive-Listens chunk s l) [
    | inr (conn, known, down) ↦ inr (in_chunk conn chunk rest known down)
    | inl ends ↦
        let (s1, got, l1) = Returns-done (Listens pid before) (receive env pid chunk s) ends in
        elim (read_loop-Listens rest s1 l1) [
          | inl later ↦ inl (rw (got, read_loop) later)
          | inr down ↦ inr (after_chunk chunk rest got down)
        ]
  ]
