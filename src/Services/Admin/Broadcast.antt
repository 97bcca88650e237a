-- ===== src/Services/Admin/Broadcast.antt =====
-- What a confirmation sends.
use meshcore_bbs.Db.{Db}
use meshcore_bbs.Db.Users.{all_user_pubkeys}
use meshcore_bbs.Models.{User}
use meshcore_bbs.Prelude.{
  Bool-cases, In, List, [], arith, false, filter, if◌then◌else◌, inl, inr, leb, map, none, not,
  refl, ℕ, ◌+◌, ◌↔◌, ◌∷◌, ◌≡◌, ◌≤◌, ◌⊎◌,
}
use meshcore_bbs.Services.Admin.{
  PendingBroadcast, confirm_broadcast, find_pending, remove_pending, stage_broadcast,
}
use meshcore_bbs.Text.{Text}
use meshcore_bbs.Text.Laws.{str_eq_refl}

module _ (db : Db) (staged : List (Text × PendingBroadcast)) (now : ℕ) (actor : Text) where
  find-remove :
      (entries : List (Text × PendingBroadcast))
      → find_pending actor (remove_pending actor entries) ≡ none
  unfolding find_pending
  find-remove [] = refl
  find-remove ((k, p) ∷ entries) = ground (arith, find-remove entries)

  -- Whatever a confirmation answers, the administrator has no broadcast staged afterwards.
  pub confirm_broadcast_once : find_pending actor (confirm_broadcast db staged now actor).1 ≡ none
  unfolding confirm_broadcast
  confirm_broadcast_once = ground (arith, find-remove staged)

  confirm-stage :
      (later : ℕ) (message : Text)
      → let c = (confirm_broadcast db (stage_broadcast staged now actor message).0 later actor).2 in
        (c.recipients ≡ (if leb later (now + 120) then all_user_pubkeys db else []))
        × (c.body ≡ (if leb later (now + 120) then message else []))
  unfolding confirm_broadcast stage_broadcast find_pending
  confirm-stage later message =
      (ground (arith, str_eq_refl actor), ground (arith, str_eq_refl actor))

-- A user of the table with this key who is not banned.
abbrev pub IsUnbanned : Text → User → Type 0
IsUnbanned pk user = (user.pubkey ≡ pk) × (user.banned ≡ false)

-- Such a user is in the list.
abbrev pub HasUnbanned : Text → List User → Type 0
HasUnbanned pk [] = ⊥
HasUnbanned pk (user ∷ users) = IsUnbanned pk user ⊎ HasUnbanned pk users

In-unbanned :
    (pk : Text) (users : List User)
    → In pk (map (λ user. user.pubkey) (filter (λ user. not user.banned) users))
      ↔ HasUnbanned pk users
In-unbanned pk [] = (λ h. h, λ h. h)
In-unbanned pk (user ∷ users) = elim (Bool-cases user.banned) [
  | inl out ↦ rw out (ground (arith, In-unbanned pk users))
  | inr kept ↦ rw kept (ground (arith, In-unbanned pk users))
]

pub In-all_user_pubkeys :
    (pk : Text) (db : Db) → In pk (all_user_pubkeys db) ↔ HasUnbanned pk db.users
unfolding all_user_pubkeys
In-all_user_pubkeys pk db = In-unbanned pk db.users

-- A confirmation that follows a staging at a time `later` has as its recipients exactly the keys of
-- the users who are not banned, and as its text the staged one, if at most two minutes have passed;
-- else it has no recipients and no text.
pub confirm-stage_broadcast :
    (db : Db) (staged : List (Text × PendingBroadcast)) (now : ℕ) (actor : Text) (later : ℕ)
    (message pk : Text)
    → let c = (confirm_broadcast db (stage_broadcast staged now actor message).0 later actor).2 in
      (In pk c.recipients ↔ ((later ≤ now + 120) × HasUnbanned pk db.users))
      × (c.body ≡ (if leb later (now + 120) then message else []))
confirm-stage_broadcast db staged now actor later message pk =
    let c = confirm-stage db staged now actor later message in
    rw (c.0, c.1)
      (elim (Bool-cases (leb later (now + 120))) [
        | inl due ↦ rw due (ground (arith, In-all_user_pubkeys pk db), refl)
        | inr late ↦ rw late (ground (arith, late), refl)
      ])
