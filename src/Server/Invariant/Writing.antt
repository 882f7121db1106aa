-- ===== src/Server/Invariant/Writing.antt =====
-- engine/src/main.cc, the write loop: what goes to the socket of a client, and what is left to go.
use mathlib.Core.List.{append_assoc}
use poker_epoll.Base.{
  Outcome, ℕ, zero, suc, ◌≡◌, refl, ap, sym, ◌∙◌, List, [], ◌∷◌, ◌++◌, take, drop, some, Bool, true,
  false, lookup, lookup-insert, arith, done, Returns, Returns-map,
}
use poker_epoll.Rules.{PlayerId}
use poker_epoll.Server.{Conn, Server}
use poker_epoll.Server.Loop.{while_out, write_loop, wrote, WriteResults, written, full, write_error}

-- The bytes that the socket takes, of those that are to go out: `write` takes as many as it says, from the front,
-- until nothing is left or no more can be written now.
abbrev pub taken : WriteResults → List ℕ → List ℕ
taken full out = []
taken write_error out = []
taken (written n rest) out = take n out ++ taken rest (drop n out)

-- A call of `write` fails.
abbrev pub fails : WriteResults → Bool
fails full = false
fails write_error = true
fails (written n rest) = fails rest

-- What the write loop comes to. If the connection stays, what was to go out is what the socket took and then what
-- is still to go out, and nothing else of the connection has changed; it goes only if a call failed.
abbrev pub Sends : PlayerId → Conn → WriteResults → Bool × Server → Type 0
Sends pid conn writes (true, s) =
    (rest : List ℕ) × (conn.out ≡ taken writes conn.out ++ rest)
    × (lookup pid s.connections ≡ some (record conn { out = rest }))
Sends pid conn writes (false, s) = fails writes ≡ true

take-append-drop : (n : ℕ) (xs : List ℕ) → xs ≡ take n xs ++ drop n xs
take-append-drop zero xs = refl
take-append-drop (suc n) [] = refl
take-append-drop (suc n) (x ∷ xs) = ap (λ ys. x ∷ ys) (take-append-drop n xs)

taken_nothing : (writes : WriteResults) → taken writes [] ≡ []
taken_nothing full = refl
taken_nothing write_error = refl
taken_nothing (written zero rest) = taken_nothing rest
taken_nothing (written (suc n) rest) = taken_nothing rest

-- One call that takes bytes.
Sends-step :
    (pid : PlayerId) (conn : Conn) (n : ℕ) (rest : WriteResults) (r : Bool × Server)
    → Sends pid (record conn { out = drop n conn.out }) rest r
    → Sends pid conn (written n rest) r
Sends-step pid conn n rest (true, s) (left, split, at) = (
  left,
  take-append-drop n conn.out
      ∙ ap (λ ys. take n conn.out ++ ys) split
      ∙ sym (append_assoc (take n conn.out) (taken rest (drop n conn.out)) left),
  at,
)
Sends-step pid conn n rest (false, s) failed = failed

wrote-lookup :
    (pid : PlayerId) (n : ℕ) (s : Server) (conn : Conn)
    → lookup pid s.connections ≡ some conn
    → lookup pid (wrote pid n s).connections ≡ some (record conn { out = drop n conn.out })
unfolding wrote
wrote-lookup pid n s conn known =
    rw (known, wrote)
      (ground (arith, lookup-insert pid pid (record conn { out = drop n conn.out }) s.connections))

-- With nothing to go out the loop is over; else the next call is made.
while_out-Sends :
    (pid : PlayerId) (writes : WriteResults) (s : Server) (conn : Conn)
    → lookup pid s.connections ≡ some conn
    → (next : Outcome (Bool × Server)) → Returns (Sends pid conn writes) next
    → Returns (Sends pid conn writes) (while_out pid s next)
while_out-Sends pid writes s conn known next sent = rw (known, Returns) (by_out conn.out refl)
  where
    by_out :
        (bytes : List ℕ)
        → conn.out ≡ bytes
        → Returns (Sends pid conn writes) (elim bytes [ [] ↦ done (true, s) | b ∷ more ↦ next ])
    by_out [] e = (
      conn.out,
      ap (λ ys. ys ++ conn.out) (sym (ap (taken writes) e ∙ taken_nothing writes)),
      known,
    )
    by_out (b ∷ more) e = sent

-- Whatever the calls of `write` return for a connection that is there, until one says that no more can be written
-- now or fails: the write loop ends. If the connection stays, what was to go out is what the socket took, in its
-- order, and then what is still to go out, so no byte is lost or sent twice, and nothing else of the connection
-- has changed; it is closed only if a call of `write` failed.
pub write_loop-Sends :
    (pid : PlayerId) (writes : WriteResults) (s : Server) (conn : Conn)
    → lookup pid s.connections ≡ some conn
    → Returns (Sends pid conn writes) (write_loop pid writes s)
unfolding write_loop wrote
write_loop-Sends pid full s conn known =
    while_out-Sends pid full s conn known _ (conn.out, refl, known)
write_loop-Sends pid write_error s conn known = while_out-Sends pid write_error s conn known _ refl
write_loop-Sends pid (written n rest) s conn known =
    while_out-Sends pid (written n rest) s conn known _ (
      Returns-map (Sends pid (record conn { out = drop n conn.out }) rest)
        (Sends pid conn (written n rest)) (write_loop pid rest (wrote pid n s))
        (write_loop-Sends pid rest (wrote pid n s) (record conn { out = drop n conn.out })
          (wrote-lookup pid n s conn known))
        (Sends-step pid conn n rest))
