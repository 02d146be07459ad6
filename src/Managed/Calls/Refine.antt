-- ===== src/Managed/Calls/Refine.antt =====
-- Runs of clients on a managed channel, against runs of the queue.
use shmchan.Common.{◌≡◌, ℕ, suc, refl, ap₂, List, [], ◌∷◌, length}
use shmchan.Managed.Fifo
use shmchan.Managed.Fifo.{Call, put, get, shut, die_put, Fifo, answer}
use shmchan.Managed.Calls
use shmchan.Managed.Calls.{World, turn}
use shmchan.Managed.Calls.Holds.{Holds, Matches}
use shmchan.Managed.Calls.Puts.{put-Matches}
use shmchan.Managed.Calls.Gets.{get-Matches, shut-Matches}
use shmchan.Managed.Calls.Deaths.{die_put-Matches}

-- Every turn replies what the queue answers, and leaves the world holding the queue.
turn-Matches :
    (capacity max : ℕ) (c : Call) (w : World) (q : Fifo) (budget : ℕ)
    → Holds capacity max (suc budget) w q
    → Matches capacity max budget (turn w c) (answer capacity max q c)
turn-Matches capacity max (put x) w q budget h = put-Matches capacity max w q budget x h
turn-Matches capacity max get w q budget h = get-Matches capacity max w q budget h
turn-Matches capacity max shut w q budget h = shut-Matches capacity max w q budget h
turn-Matches capacity max (die_put n x) w q budget h = die_put-Matches capacity max w q budget n x h

-- A world that holds a bounded queue, with sequences left for as many sends as there are calls: the
-- replies of `try_send`, `try_receive` and `close`, called in any order by clients that may die in
-- a send after any of its stores, are those of the queue, where the message of a sender that died
-- is there if its READY store was done, and is not there otherwise.
pub run-Fifo :
    (capacity max : ℕ) (calls : List Call) (w : World) (q : Fifo)
    → Holds capacity max (length calls) w q
    → Calls.run w calls ≡ Fifo.run capacity max q calls
unfolding Calls.run Fifo.run
run-Fifo capacity max [] w q h = refl
run-Fifo capacity max (c ∷ rest) w q h =
    let (r, h') = turn-Matches capacity max c w q (length rest) h in
    ap₂ ◌∷◌ r (run-Fifo capacity max rest (turn w c).1 (answer capacity max q c).1 h')
