-- ===== src/Services/Mails/Naming.antt =====
-- A display name reaches its holder.
use meshcore_bbs.Db.{Db}
use meshcore_bbs.Db.Users.{get_user_by_name}
use meshcore_bbs.Models.{User}
use meshcore_bbs.Onboarding.Distinct.{AreDistinct, clash, opt_eq_iff}
use meshcore_bbs.Prelude.{
  In, In-All, List, [], arith, false, find_row, inl, inr, null, some, true, ◌∷◌, ◌≡◌,
}
use meshcore_bbs.Services.Mails.{may_receive, resolve_recipient}
use meshcore_bbs.Text.{Text, Unicode, lower, opt_eq}

find_holder :
    (lc : Text) (user : User) (users : List User)
    → AreDistinct users
    → In user users
    → user.display_name_lc ≡ some lc
    → find_row (λ x. opt_eq x.display_name_lc (some lc)) users ≡ some user
find_holder lc user [] d i h = absurd i
find_holder lc user (x ∷ users) d (inl e) h =
    ground (arith, e, opt_eq_iff user.display_name_lc (some lc))
find_holder lc user (x ∷ users) d (inr i) h = ground (
  arith,
  find_holder lc user users d.1 i h,
  In-All (λ y. clash x y ≡ false) user users d.0 i,
  opt_eq_iff x.display_name_lc (some lc),
  opt_eq_iff x.display_name_lc user.display_name_lc,
)

-- Where no two users share a key or a display name in lower case, an identifier whose lower case is
-- the lower-case display name of an onboarded user who is not banned resolves to that user.
pub resolve_recipient_holder :
    (u : Unicode) (db : Db) (identifier : Text) (user : User)
    → AreDistinct db.users
    → In user db.users
    → user.display_name_lc ≡ some (lower u identifier)
    → may_receive user ≡ true
    → null identifier ≡ false
    → (resolve_recipient u db identifier).user ≡ some user
unfolding resolve_recipient get_user_by_name
resolve_recipient_holder u db identifier user d i named willing given =
    ground (arith, find_holder (lower u identifier) user db.users d i named)
