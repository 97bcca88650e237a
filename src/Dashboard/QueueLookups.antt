-- ===== src/Dashboard/QueueLookups.antt =====
-- The page of the queue looks every recipient up once, and shows what fresh lookups would.
use meshcore_bbs.Dashboard.QueueView.{
  Looked, Paths, QueueItem, display_name_of, look_up, path_to, queue_item,
}
use meshcore_bbs.Db.{Db}
use meshcore_bbs.Db.Outbound.{get_outbound_pause_until}
use meshcore_bbs.Models.{OutboundMessage}
use meshcore_bbs.Prelude.{List, [], ℕ, ◌∷◌, ◌≡◌}
use meshcore_bbs.Text.{Text}

-- The page without the dictionaries.
unfoldable pub fresh_items : Paths → ℕ → Db → List OutboundMessage → List QueueItem
fresh_items radio now db [] = []
fresh_items radio now db (m ∷ messages) =
    queue_item now m (path_to radio m.to_pubkey) (display_name_of db m.to_pubkey)
      (get_outbound_pause_until db now m.to_pubkey).1
    ∷ fresh_items radio now db messages

-- A database that shows the same users and pauses as the one that the request began with.
record Agrees (now : ℕ) (start_db db : Db) : Type 0 where
  users : db.users ≡ start_db.users
  pauses :
      (pk : Text)
      → (get_outbound_pause_until db now pk).1 ≡ (get_outbound_pause_until start_db now pk).1

module _ (radio : Paths) (now : ℕ) (start_db : Db) where
  -- What a lookup finds at the beginning of the request.
  looked_at : Text → Looked
  looked_at pk = (look_up radio now pk start_db).1

  AreRight : List (Text × Looked) → Type 0
  AreRight [] = Unit
  AreRight ((pk, l) ∷ cache) = (l ≡ looked_at pk) × AreRight cache
