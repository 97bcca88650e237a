-- ===== src/OutboundWorker/Limit.antt =====
-- The retry limit over a whole run, whatever else happens to the queue.
use native.Mathlib.Nat.{le_trans}
use meshcore_bbs.Db.{Db}
use meshcore_bbs.Db.Outbound.Chances.{IsQueue, chances, chances_of}
use meshcore_bbs.Db.Outbound.Keeps.{chances_left}
use meshcore_bbs.Models.{OutboundMessage}
use meshcore_bbs.OutboundWorker.{Event, Worker, handed_by, happen, max_attempts}
use meshcore_bbs.OutboundWorker.Retries.{cost, happen-Costs}
use meshcore_bbs.Prelude.{All, Distinct, List, [], arith, map, refl, ℕ, ◌+◌, ◌∷◌, ◌≡◌, ◌≢◌, ◌≤◌}

-- How often the message with an id is handed to the radio.
unfoldable pub count_handed : ℕ → ℕ → List Event → Worker → ℕ
unfolding happen handed_by
count_handed gap id [] w = 0
count_handed gap id (event ∷ rest) w =
    cost id (handed_by gap event w) + count_handed gap id rest (happen gap event w)

count_handed-le-chances :
    (gap id : ℕ) (events : List Event) (w : Worker)
    → IsQueue w.db
    → count_handed gap id events w ≤ chances_left id w.db
unfolding count_handed
count_handed-le-chances gap id [] w v = omega arith
count_handed-le-chances gap id (event ∷ rest) w v =
    let c = happen-Costs gap event w v in
    omega (arith, c.paid id, count_handed-le-chances gap id rest (happen gap event w) c.queue)

chances_of_absent :
    (id : ℕ) (ms : List OutboundMessage)
    → All (λ k. k ≢ id) (map (λ m. m.id) ms)
    → chances_of id ms ≡ 0
unfolding chances_of
chances_of_absent id [] h = refl
chances_of_absent id (m ∷ ms) h = ground (arith, h.0, chances_of_absent id ms h.1)

chances_of-le :
    (id : ℕ) (ms : List OutboundMessage) → Distinct (map (λ m. m.id) ms) → chances_of id ms ≤ 5
unfolding chances_of chances
chances_of-le id [] h = omega arith
chances_of-le id (m ∷ ms) h = ground (arith, chances_of_absent m.id ms h.0, chances_of-le id ms h.1)

pub chances_left-le : (id : ℕ) (db : Db) → IsQueue db → chances_left id db ≤ 5
unfolding chances_left
chances_left-le id db v = ground (arith, chances_of-le id db.outbound_queue v.distinct)

-- From a queue with distinct ids below the next id and no pending row past its attempts, in any run of
-- ticks, enqueues, cancellations, requeues and pauses, no message is handed to the
-- radio more than five times.
pub count_handed-le_five :
    (gap id : ℕ) (events : List Event) (w : Worker)
    → IsQueue w.db
    → count_handed gap id events w ≤ max_attempts
count_handed-le_five gap id events w v =
    le_trans (count_handed-le-chances gap id events w v) (chances_left-le id w.db v)
