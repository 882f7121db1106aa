-- ===== src/Tests/Programs.antt =====
-- Concrete batches and runs: the witnesses of the theorems about the main loop.
use poker_epoll.Base.{◌+◌, ◌*◌, ◌≡◌, ◌⊎◌, refl, [], ◌∷◌, some, true, false, arith, Returns}
use poker_epoll.Server.Loop.{bytes, would_block, written, full}
use poker_epoll.Server.Invariant.Running.{begins, connects}
use poker_epoll.Main.{
  MainEnv, Process, accepted, nothing_now, descriptor, pointer, EpollEvent, Opening, batch,
  interrupted, handle_batch, run_main, open_sockets, started_at,
}
use poker_epoll.Main.Batches.{IsBatch, Proceeds, BatchDown, Nobody, handle_batch-Proceeds}
use poker_epoll.Main.Runs.{Ends, RunDown, run_main-Ends}
use poker_epoll.Tests.Tables.{plain-IsLawful}
use poker_epoll.Tests.Servers.{plain_server, greeted, greeted_first, greeted-IsCounted}

-- The connections are sixteen bytes apart.
abbrev plain_main : MainEnv
plain_main = record { of_server = plain_server; address = λ pid. 4096 + 16 * pid }

abbrev somebody_comes : EpollEvent
somebody_comes = record {
  is_broken = false;
  is_input = true;
  is_output = false;
  about = descriptor 3;
  accepts = accepted 6 ∷ nothing_now ∷ [];
  reads = [];
  writes = full;
}

abbrev first_writes : EpollEvent
first_writes = record {
  is_broken = false;
  is_input = true;
  is_output = true;
  about = pointer 1;
  accepts = [];
  reads = bytes (0 ∷ 0 ∷ 0 ∷ 1 ∷ 8 ∷ []) ∷ would_block ∷ [];
  writes = written 5 full;
}

abbrev first_is_there : Process
first_is_there = record { server = greeted.0; epfd = 4; listenfd = 3; closed = [] }

two_events-IsBatch : IsBatch plain_main first_is_there (first_writes ∷ somebody_comes ∷ [])
two_events-IsBatch = (greeted_first, ((λ same. cc), tt), (refl, tt, tt))

handle_batch-Proceeds_example :
    Returns
      (Proceeds plain_main Nobody (1 + 2) first_is_there)
      (handle_batch plain_main (first_writes ∷ somebody_comes ∷ []) first_is_there)
    ⊎ BatchDown plain_main (first_writes ∷ somebody_comes ∷ []) first_is_there
handle_batch-Proceeds_example =
    handle_batch-Proceeds plain_main plain-IsLawful (first_writes ∷ somebody_comes ∷ []) 1
      first_is_there (connects 5 begins greeted.1) greeted-IsCounted two_events-IsBatch
      (omega arith)

abbrev all_open : Opening
all_open = record { socket = some 3; is_bound = true; is_listening = true; epoll = some 4 }

opened : open_sockets all_open ≡ some (4, 3)
unfolding open_sockets
opened = refl

run_main-Ends_example :
    Returns
      (λ r. (p : Process) × (r.1 ≡ some p) × Ends plain_main 2 4 3 r.0 p)
      (run_main plain_main all_open (batch (somebody_comes ∷ []) ∷ interrupted ∷ []))
    ⊎ RunDown plain_main (batch (somebody_comes ∷ []) ∷ interrupted ∷ []) (started_at (4, 3))
run_main-Ends_example =
    run_main-Ends plain_main plain-IsLawful all_open 4 3
      (batch (somebody_comes ∷ []) ∷ interrupted ∷ []) opened ((refl, tt, tt), λ p' ran. tt)
      (omega arith)
