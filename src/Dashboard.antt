-- ===== src/Dashboard.antt =====
-- dashboard.py: the HTTP interface. aiohttp routes a request to one of these functions; an answer is
-- a JSON object, which is a record here, or an error with its HTTP status. The page itself and the
-- stream of the log are aiohttp's.
pub mod Status
pub mod Stats
pub mod Pages
pub mod History
pub mod QueueView
pub mod QueueLookups
pub mod QueueActions
pub mod BoardActions
pub mod Logs
use meshcore_bbs.Db.{Db, Error, overflow_error}
use meshcore_bbs.Models.{User}
use meshcore_bbs.Prelude.{Option, [], if◌then◌else◌, ltb, none, or_else, some, take, ℕ, ◌^◌}
use meshcore_bbs.Services.{text_or}
use meshcore_bbs.Text.{Text, Unicode}
use meshcore_bbs.Text.Integers.{int_of_text, negsuc, pos, ℤ}

-- `{"ok": False, "error": …}` with a status, or an exception, which aiohttp answers with 500.
pub data Reply {ℓ} (A : Type ℓ) : Type ℓ where
  answered : A → Reply A
  refused : ℕ → Text → Reply A
  raised : Error → Reply A

-- The body of a request: no JSON, JSON that is not an object (which raises AttributeError), or an
-- object with the texts that `str` makes of its members.
pub data Body : Type 0 where
  not_json not_object : Body
  object : (Text → Option Text) → Body

-- `str(body.get(key, ""))`.
abbrev pub member : (Text → Option Text) → Text → Text
member fields key = or_else (fields key) []

-- An id in the path of a request. SQLite binds what lies in 64 bits, and else OverflowError is
-- raised.
abbrev pub at_path_id {ℓ} :
    {A : Type ℓ} → Unicode → Text → Text → Db → (ℤ → Db × Reply A) → Db × Reply A
at_path_id u raw error db continue = elim (int_of_text u raw) [
  | none ↦ (db, refused 400 error)
  | some (pos n) ↦ if ltb n (2 ^ 63) then continue (pos n) else (db, raised overflow_error)
  | some (negsuc n) ↦ if ltb n (2 ^ 63) then continue (negsuc n) else (db, raised overflow_error)
]

-- An optional number of the query; one that `int` does not read counts as missing.
abbrev pub query_int : Unicode → Option Text → ℕ → ℤ
query_int u none default = pos default
query_int u (some raw) default = or_else (int_of_text u raw) (pos default)

-- `pubkey[:12]`.
abbrev pub short_key : Text → Text
short_key pk = take 12 pk

-- `display_name or adv_name or pubkey[:8]`.
abbrev pub name_of_user : User → Text
name_of_user u = text_or u.display_name (text_or u.adv_name (take 8 u.pubkey))
