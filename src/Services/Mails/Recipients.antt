-- ===== src/Services/Mails/Recipients.antt =====
-- Who receives a mail.
use meshcore_bbs.Db.{Db}
use meshcore_bbs.Db.Users.{find_users_by_name_substring, get_user_by_name, get_user_by_prefix}
use meshcore_bbs.Models.{User}
use meshcore_bbs.Prelude.{
  Bool, Bool-cases, In, In-filter, In-order_by, List, Option, [], all, ap, arith, find_row,
  if◌then◌else◌, inl, inr, leb, length, none, null, some, subst, sym, true, ◌&&◌, ◌∷◌, ◌≡◌,
}
use meshcore_bbs.Services.Mails.{
  RecipientResolution, hex_char, may_receive, no_recipient, resolve_by_prefix, resolve_partial,
  resolve_recipient, the_recipient,
}
use meshcore_bbs.Text.{Text, Unicode, lower}

find_row_found :
    {A : Type 0} (p : A → Bool) (a : A) (xs : List A) → find_row p xs ≡ some a → In a xs
find_row_found p a [] h = absurd (cc)
find_row_found p a (x ∷ xs) h = elim (Bool-cases (p x)) [
  | inl holds ↦ inl (ground arith)
  | inr fails ↦ inr (find_row_found p a xs (ground arith))
]

-- A user who is in the table and may receive mail.
pub record IsRecipient (db : Db) (user : User) : Type 0 where
  pub known : In user db.users
  pub willing : may_receive user ≡ true

same_user : {a b : User} → ◌≡◌ {A = Option User} (some a) (some b) → a ≡ b
same_user e = cc

module _ (u : Unicode) (db : Db) where
  chosen :
      (found : Option User) (user : User) (other : RecipientResolution)
      → ((found ≡ some user) → In user db.users)
      → ((other.user ≡ some user) → IsRecipient db user)
      → (elim found as (λ _. RecipientResolution) [
        | none ↦ other
        | some x ↦ if may_receive x then the_recipient x else other
      ]).user
        ≡ some user
      → IsRecipient db user
  chosen none user other known rest h = rest h
  chosen (some x) user other known rest h = elim (Bool-cases (may_receive x)) [
    | inl holds ↦
        let same : x ≡ user = same_user (rw holds at h) in
        record {
          known = known (ap some same);
          willing = subst (λ y. may_receive y ≡ true) same holds;
        }
    | inr fails ↦ rest (rw fails at h)
  ]

  not_some : (user : User) → ◌≡◌ {A = Option User} none (some user) → ⊥
  not_some user e = cc

  prefix_known :
      (prefix' : Text) (x : User) → get_user_by_prefix u db prefix' ≡ some x → In x db.users
  unfolding get_user_by_prefix
  prefix_known prefix' x e = find_row_found _ x db.users e

  name_known : (name : Text) (x : User) → get_user_by_name u db name ≡ some x → In x db.users
  unfolding get_user_by_name
  name_known name x e = find_row_found _ x db.users e

  resolve_by_prefix-IsRecipient :
      (identifier : Text) (user : User)
      → (resolve_by_prefix u db identifier).user ≡ some user
      → IsRecipient db user
  unfolding resolve_by_prefix
  resolve_by_prefix-IsRecipient identifier user h =
      elim (Bool-cases (leb 6 (length (lower u identifier)) && all hex_char (lower u identifier))) [
        | inl holds ↦
            chosen (get_user_by_prefix u db (lower u identifier)) user no_recipient
              (λ e. prefix_known (lower u identifier) user e) (λ e. absurd (not_some user e))
              (rw holds at h)
        | inr fails ↦ absurd (not_some user (rw fails at h))
      ]

  partial_known :
      (needle : Text) (x : User)
      → In x (find_users_by_name_substring u db needle)
      → IsRecipient db x
  unfolding find_users_by_name_substring
  partial_known needle x i = elim (Bool-cases (null needle)) [
    | inl holds ↦ absurd (rw holds at i)
    | inr fails ↦
        let found = In-filter _ x db.users (In-order_by _ x _ (rw fails at i)) in
        record { known = found.0; willing = ground (arith, found.1) }
  ]

  resolve_partial-IsRecipient :
      (identifier : Text) (users : List User) (user : User)
      → ((x : User) → In x users → IsRecipient db x)
      → (resolve_partial u db identifier users).user ≡ some user
      → IsRecipient db user
  unfolding resolve_partial
  resolve_partial-IsRecipient identifier [] user known h =
      resolve_by_prefix-IsRecipient identifier user h
  resolve_partial-IsRecipient identifier (x ∷ []) user known h =
      known user (inl (sym (same_user h)))
  resolve_partial-IsRecipient identifier (x ∷ y ∷ users) user known h = absurd (not_some user h)

  -- The user that an identifier resolves to stands in the table, is onboarded and is not banned.
  pub resolve_recipient-IsRecipient :
      (identifier : Text) (user : User)
      → (resolve_recipient u db identifier).user ≡ some user
      → IsRecipient db user
  unfolding resolve_recipient
  resolve_recipient-IsRecipient identifier user h = elim (Bool-cases (null identifier)) [
    | inl holds ↦ absurd (not_some user (rw holds at h))
    | inr fails ↦
        chosen (get_user_by_name u db identifier) user
          (resolve_partial u db identifier (find_users_by_name_substring u db identifier))
          (λ e. name_known identifier user e)
          (λ e.
            resolve_partial-IsRecipient identifier (find_users_by_name_substring u db identifier)
              user (λ x i. partial_known identifier x i) e)
          (rw fails at h)
  ]
