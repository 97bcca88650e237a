-- ===== src/Db/Audit.antt =====
-- The section `audit` of db.py.
use meshcore_bbs.Db.{Db}
use meshcore_bbs.Prelude.{Option, [], count_rows, filter, leb, ltb, ℕ, ◌++◌, ◌∷◌}
use meshcore_bbs.Text.{Text}

unfoldable pub audit : Db → ℕ → Option Text → Text → Text → Db
audit db now actor action detail = record db {
  audit_log =
      db.audit_log
      ++ record { ts = now; actor_pubkey = actor; action = action; detail = detail } ∷ [];
}

-- The new database, and the number of entries deleted.
unfoldable pub purge_old_audit : Db → ℕ → Db × ℕ
purge_old_audit db before_ts = (
  record db { audit_log = filter (λ e. leb before_ts e.ts) db.audit_log },
  count_rows (λ e. ltb e.ts before_ts) db.audit_log,
)
