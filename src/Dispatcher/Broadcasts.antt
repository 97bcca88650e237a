-- ===== src/Dispatcher/Broadcasts.antt =====
-- Whom a confirmed broadcast reaches.
use meshcore_bbs.Db.{Db}
use meshcore_bbs.Dispatcher.{Bbs, Handled, Setting}
use meshcore_bbs.Format.{default_packet_bytes, split_packets}
use meshcore_bbs.Models.{OutboundMessage}
use meshcore_bbs.Prelude.{All, In, some, ℕ, ◌+◌, ◌≡◌, ◌≤◌, ◌⊎◌}
use meshcore_bbs.Services.Admin.{PendingBroadcast, find_pending}
use meshcore_bbs.Services.Admin.Broadcast.{HasUnbanned}
use meshcore_bbs.Text.{Text}

-- A row of a broadcast that `pk` has staged at most two minutes before `now`: a packet of its text,
-- to a user who is not banned.
abbrev pub IsAnnounced : ℕ → Text → Bbs → OutboundMessage → Type 0
IsAnnounced now pk bbs m =
    (p : PendingBroadcast) × (find_pending pk bbs.staged ≡ some p)
    × (now ≤ p.created_at + 120)
    × HasUnbanned m.to_pubkey bbs.db.users
    × In m.body (split_packets p.text default_packet_bytes)

-- A row that was there before, or goes to `pk`, or is one of the broadcast.
abbrev pub IsExpected : ℕ → Text → Bbs → OutboundMessage → Type 0
IsExpected now pk bbs m = In m bbs.db.outbound_queue ⊎ (m.to_pubkey ≡ pk) ⊎ IsAnnounced now pk bbs m

module _ (e : Setting) (now : ℕ) (verb pk : Text) (bbs : Bbs) where
  Answers : Handled → Type 0
  Answers handled = All (IsExpected now pk bbs) handled.0.db.outbound_queue
