-- ===== src/Health.antt =====
-- health_state.py and health.py: the flags of the transport, and the answer to /health. Times are
-- numbers of milliseconds here.
use meshcore_bbs.Prelude.{
  Bool, List, Option, [], arith, if◌then◌else◌, ltb, none, null, some, true, ℕ, ◌&&◌, ◌*◌, ◌++◌,
  ◌+◌, ◌↔◌, ◌∷◌, ◌≡◌, ◌≤◌, ◌⊎◌,
}
use meshcore_bbs.Text.{Text, lit}

pub record HealthState : Type 0 where
  pub transport_connected : Bool
  pub last_event_at : ℕ

abbrev pub health_heartbeat_threshold : ℕ
health_heartbeat_threshold = 600

-- `(now - last_event_at) > HEALTH_HEARTBEAT_THRESHOLD and last_event_at > 0`.
abbrev pub is_silent : HealthState → ℕ → Bool
is_silent state now =
    ltb (state.last_event_at + health_heartbeat_threshold * 1000) now && ltb 0 state.last_event_at

-- `_health_problems` of dashboard.py, and the same lines of health.py.
unfoldable pub health_problems : HealthState → ℕ → List Text
health_problems state now =
    (if state.transport_connected then [] else lit "transport_disconnected" ∷ [])
    ++ (if is_silent state now then lit "no_recent_events" ∷ [] else [])

-- `_check_db`: the text of the exception that `SELECT 1` raises, if any.
unfoldable pub check_db : Option Text → List Text
check_db none = []
check_db (some e) = (lit "db_error:" ++ e) ∷ []

-- The answer where there is no dashboard: the HTTP status, "status" and "problems".
pub record HealthReply : Type 0 where
  pub code : ℕ
  pub status : Text
  pub problems : List Text

unfoldable pub health : HealthState → ℕ → Option Text → HealthReply
health state now db_failure =
    let problems = health_problems state now ++ check_db db_failure in
    if null problems
    then record { code = 200; status = lit "ok"; problems = [] }
    else record { code = 503; status = lit "unhealthy"; problems = problems }

-- When the answer without a dashboard has the code 200.
pub health_ok :
    (state : HealthState) (now : ℕ) (db_failure : Option Text)
    → ((health state now db_failure).code ≡ 200) ↔ (
        (state.transport_connected ≡ true)
        × (db_failure ≡ none)
        × ((state.last_event_at ≡ 0) ⊎ (now ≤ state.last_event_at + 600000)))
unfolding health health_problems check_db
health_ok state now none = ground arith
health_ok state now (some e) = ground arith
