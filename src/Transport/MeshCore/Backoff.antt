-- ===== src/Transport/MeshCore/Backoff.antt =====
-- The pauses of the supervisor of the link.
use meshcore_bbs.Prelude.{Bool, List, [], arith, false, min, true, ℕ, ◌*◌, ◌∷◌, ◌≤◌}
use meshcore_bbs.Transport.MeshCore.Link.{
  reconnect_backoff_initial, reconnect_backoff_max, supervise,
}

-- The pause after some rounds, each with whether the link was up and whether a reconnection worked.
unfoldable pub backoff_after : List (Bool × Bool) → ℕ → ℕ
backoff_after [] backoff = backoff
backoff_after ((up, works) ∷ rounds) backoff = backoff_after rounds (supervise up works backoff).0

-- From a pause between one second and sixty on, the pause stays in these bounds, whatever the rounds
-- meet.
pub backoff_after-bounds :
    (rounds : List (Bool × Bool)) (backoff : ℕ)
    → reconnect_backoff_initial ≤ backoff
    → backoff ≤ reconnect_backoff_max
    → (reconnect_backoff_initial ≤ backoff_after rounds backoff)
      × (backoff_after rounds backoff ≤ reconnect_backoff_max)
unfolding backoff_after supervise
backoff_after-bounds [] backoff low high = (low, high)
backoff_after-bounds ((true, works) ∷ rounds) backoff low high =
    backoff_after-bounds rounds 1 (omega arith) (omega arith)
backoff_after-bounds ((false, true) ∷ rounds) backoff low high =
    backoff_after-bounds rounds 1 (omega arith) (omega arith)
backoff_after-bounds ((false, false) ∷ rounds) backoff low high =
    backoff_after-bounds rounds (min (backoff * 2) 60) (omega arith) (omega arith)
