-- ===== src/Services/Admin.antt =====
-- services/admin.py: the commands of the administrators.
pub mod Broadcast
use meshcore_bbs.Config.{BbsConfig}
use meshcore_bbs.Db.{Db}
use meshcore_bbs.Db.Audit.{audit}
use meshcore_bbs.Db.Users.{all_user_pubkeys, get_user_by_prefix, set_banned}
use meshcore_bbs.Models.{User}
use meshcore_bbs.Prelude.{
  Bool, List, Option, [], any, false, filter, if◌then◌else◌, length, ltb, none, not, some, take,
  true, ℕ, ◌++◌, ◌+◌, ◌∷◌,
}
use meshcore_bbs.Services.{text_or}
use meshcore_bbs.Text.{Text, Unicode, lit, lower, str_eq}
use meshcore_bbs.Text.Decimal.{str}

pub record PendingBroadcast : Type 0 where
  pub text : Text
  pub created_at : ℕ

-- What `confirm_broadcast` returns.
pub record Confirmation : Type 0 where
  pub status : Text
  pub recipients : List Text
  pub body : Text

-- `self._pending.get(pk)` with None for a missing key.
unfoldable pub find_pending : Text → List (Text × PendingBroadcast) → Option PendingBroadcast
find_pending pk [] = none
find_pending pk ((k, p) ∷ rest) = if str_eq k pk then some p else find_pending pk rest

abbrev pub remove_pending : Text → List (Text × PendingBroadcast) → List (Text × PendingBroadcast)
remove_pending pk staged = filter (λ entry. not (str_eq entry.0 pk)) staged

-- The shown name of a target.
abbrev target_name : User → Text
target_name target = text_or target.display_name (take 8 target.pubkey)

-- `reason or None`.
abbrev reason_or_none : Text → Option Text
reason_or_none [] = none
reason_or_none (c ∷ s) = some (c ∷ s)

module _ (u : Unicode) where
  unfoldable pub is_admin : BbsConfig → Text → Bool
  is_admin cfg pubkey = any (λ p. str_eq (lower u p) (lower u pubkey)) cfg.admin_pubkeys

  unfoldable pub ban : Db → ℕ → Text → Text → Text → Db × Text
  ban db now actor prefix' reason = elim (get_user_by_prefix u db prefix') [
    | none ↦ (db, lit "! No user matching " ++ prefix')
    | some target ↦ if str_eq target.pubkey actor then (db, lit "! Cannot ban self.") else (
      audit (set_banned db target.pubkey true (reason_or_none reason)) now (some actor) (lit "ban")
          (lit "target=" ++ (take 12 target.pubkey ++ (lit " reason=" ++ reason))),
      lit "OK banned " ++ target_name target,
    )
  ]

  unfoldable pub unban : Db → ℕ → Text → Text → Db × Text
  unban db now actor prefix' = elim (get_user_by_prefix u db prefix') [
    | none ↦ (db, lit "! No user matching " ++ prefix')
    | some target ↦ (
      audit (set_banned db target.pubkey false none) now (some actor) (lit "unban")
          (lit "target=" ++ take 12 target.pubkey),
      lit "OK unbanned " ++ target_name target,
    )
  ]

unfoldable pub stage_broadcast :
    List (Text × PendingBroadcast) → ℕ → Text → Text → List (Text × PendingBroadcast) × Text
stage_broadcast staged now actor message = (
  (actor, record { text = message; created_at = now }) ∷ remove_pending actor staged,
  lit "Will send to ALL users ("
      ++ (str (length message) ++ lit " chars). Confirm with: ADMIN BROADCAST CONFIRM"),
)

abbrev pub refused_broadcast : Text → Confirmation
refused_broadcast reason = record { status = reason; recipients = []; body = [] }

abbrev do_broadcast : Db → ℕ → Text → PendingBroadcast → Db × Confirmation
do_broadcast db now actor p =
    let recipients = all_user_pubkeys db in
    (
      audit db now (some actor) (lit "broadcast") (
          lit "recipients=" ++ (str (length recipients) ++ (lit " chars=" ++ str (length p.text)))),
      record {
        status = lit "OK broadcasting to " ++ (str (length recipients) ++ lit " users.");
        recipients = recipients;
        body = p.text;
      },
    )

-- `now - created_at > 120`, without the subtraction.
unfoldable pub confirm_broadcast :
    Db
    → List (Text × PendingBroadcast)
    → ℕ
    → Text
    → Db × List (Text × PendingBroadcast) × Confirmation
confirm_broadcast db staged now actor = elim (find_pending actor staged) [
  | none ↦ (db, staged, refused_broadcast (lit "! No pending broadcast."))
  | some p ↦
      let (audited, confirmation) = do_broadcast db now actor p in
      if ltb (p.created_at + 120) now
      then (
        db,
        remove_pending actor staged,
        refused_broadcast (lit "! Confirmation expired (>2 min)."),
      )
      else (audited, remove_pending actor staged, confirmation)
]
