-- ===== src/Onboarding/Distinct.antt =====
-- No two users share a key or a display name.
use meshcore_bbs.Db.{Db}
use meshcore_bbs.Db.Audit.{audit}
use meshcore_bbs.Db.Users.{
  coalesce, get_user, has_pubkey, mark_motd_sent, name_taken, new_user, set_display_name,
  upsert_user_first_seen,
}
use meshcore_bbs.Models.{User}
use meshcore_bbs.Onboarding.{try_set_name}
use meshcore_bbs.Prelude.{
  All, All-append, All-both, All-update_rows, Bool, Bool-cases, List, Option, Option-cases, [], any,
  arith, false, find_row-none, if◌then◌else◌, inl, inr, is_some, none, refl, some, subst, sym, true,
  update_rows, ℕ, ◌&&◌, ◌++◌, ◌||◌, ◌↔◌, ◌∷◌, ◌≡◌,
}
use meshcore_bbs.Text.{Text, Unicode, lower, opt_eq, str_eq}
use meshcore_bbs.Text.Laws.{str_eq_iff}

abbrev pub clash : User → User → Bool
clash x y =
    str_eq x.pubkey y.pubkey
    || (is_some x.display_name_lc && opt_eq x.display_name_lc y.display_name_lc)

-- No two rows have the same key, or the same display name in lower case.
abbrev pub AreDistinct : List User → Type 0
AreDistinct [] = Unit
AreDistinct (x ∷ xs) = All (λ y. clash x y ≡ false) xs × AreDistinct xs

pub opt_eq_iff : (a b : Option Text) → (opt_eq a b ≡ true) ↔ (a ≡ b)
unfolding opt_eq
opt_eq_iff none none = ground arith
opt_eq_iff none (some b) = ground arith
opt_eq_iff (some a) none = ground arith
opt_eq_iff (some a) (some b) = ground (arith, str_eq_iff a b)

module _ (u : Unicode) (pk name : Text) where
  abbrev pub renamed : User → User
  renamed user = record user {
    display_name = some name;
    display_name_lc = some (lower u name);
    onboarded = true;
  }

  abbrev rename : User → User
  rename user = if has_pubkey pk user then renamed user else user

  rename-clash :
      (x y : User)
      → name_taken u pk name x ≡ false
      → name_taken u pk name y ≡ false
      → clash x y ≡ false
      → clash (rename x) (rename y) ≡ false
  rename-clash x y hx hy h = ground (
    arith,
    str_eq_iff x.pubkey pk,
    str_eq_iff y.pubkey pk,
    str_eq_iff x.pubkey y.pubkey,
    opt_eq_iff x.display_name_lc (some (lower u name)),
    opt_eq_iff y.display_name_lc (some (lower u name)),
    opt_eq_iff (some (lower u name)) y.display_name_lc,
    opt_eq_iff x.display_name_lc y.display_name_lc,
  )

  pub any-false :
      (users : List User)
      → any (name_taken u pk name) users ≡ false
      → All (λ user. name_taken u pk name user ≡ false) users
  any-false [] h = tt
  any-false (x ∷ users) h = (ground arith, any-false users (ground arith))

  pub rename-AreDistinct :
      (users : List User)
      → All (λ user. name_taken u pk name user ≡ false) users
      → AreDistinct users
      → AreDistinct (update_rows (has_pubkey pk) renamed users)
  rename-AreDistinct [] h d = tt
  rename-AreDistinct (x ∷ users) h d = (
    All-update_rows (has_pubkey pk) renamed
        (λ y. (clash x y ≡ false) × (name_taken u pk name y ≡ false))
        (λ y. clash (rename x) y ≡ false) users (λ y k. rename-clash x y h.0 k.1 k.0)
        (All-both (λ y. clash x y ≡ false) (λ y. name_taken u pk name y ≡ false) users d.0 h.1),
    rename-AreDistinct users h.1 d.1,
  )

-- Where no two users share a key or a display name, none do after an attempt to set a name for a
-- known user, whether it succeeds or not.
pub set_display_name-AreDistinct :
    (u : Unicode) (db : Db) (pk name : Text)
    → any (has_pubkey pk) db.users ≡ true
    → AreDistinct db.users
    → AreDistinct (set_display_name u db pk name).0.users
unfolding set_display_name
set_display_name-AreDistinct u db pk name known d =
    elim (Bool-cases (any (name_taken u pk name) db.users)) [
      | inl taken ↦ rw (known, taken) d
      | inr free ↦
          rw (known, free)
            (rename-AreDistinct u pk name db.users (any-false u pk name db.users free) d)
    ]

pub snoc-AreDistinct :
    (users : List User) (x : User)
    → All (λ y. clash y x ≡ false) users
    → AreDistinct users
    → AreDistinct (users ++ x ∷ [])
snoc-AreDistinct [] x h d = (tt, tt)
snoc-AreDistinct (y ∷ users) x h d = (
  All-append (λ z. clash y z ≡ false) users (x ∷ []) d.0 (h.0, tt),
  snoc-AreDistinct users x h.1 d.1,
)

pub same-AreDistinct :
    (p : User → Bool) (f : User → User) (users : List User)
    → ((x : User) → (f x).pubkey ≡ x.pubkey)
    → ((x : User) → (f x).display_name_lc ≡ x.display_name_lc)
    → AreDistinct users
    → AreDistinct (update_rows p f users)
same-AreDistinct p f [] key lc d = tt
same-AreDistinct p f (x ∷ users) key lc d = (
  All-update_rows p f (λ y. clash x y ≡ false) (λ y. clash (if p x then f x else x) y ≡ false) users
      (λ y h. ground (arith, h, key x, key y, lc x, lc y)) d.0,
  same-AreDistinct p f users key lc d.1,
)

either_users :
    (b : Bool) (xs ys : List User)
    → AreDistinct xs
    → AreDistinct ys
    → AreDistinct (if b then xs else ys)
either_users true xs ys h k = h
either_users false xs ys h k = k

try_set_name-users :
    (u : Unicode) (db : Db) (now : ℕ) (pk name : Text)
    → (try_set_name u db now pk name).0.users ≡ (
        if (try_set_name u db now pk name).1
        then (mark_motd_sent (set_display_name u db pk name).0 pk).users
        else db.users)
unfolding try_set_name mark_motd_sent audit
try_set_name-users u db now pk name = ground arith

-- Where no two users share a key or a display name, none do after a known user has asked for a
-- name, whether it is given, refused or taken.
pub try_set_name-AreDistinct :
    (u : Unicode) (db : Db) (now : ℕ) (pk name : Text)
    → any (has_pubkey pk) db.users ≡ true
    → AreDistinct db.users
    → AreDistinct (try_set_name u db now pk name).0.users
unfolding try_set_name mark_motd_sent audit
try_set_name-AreDistinct u db now pk name known d =
    let named = set_display_name u db pk name in
    let given = set_display_name-AreDistinct u db pk name known d in
    let greeted : AreDistinct (mark_motd_sent named.0 pk).users =
      same-AreDistinct (has_pubkey pk) (λ user. record user { motd_sent = true }) named.0.users
        (λ x. refl) (λ x. refl) given in
    subst AreDistinct (sym (try_set_name-users u db now pk name))
      (either_users (try_set_name u db now pk name).1 _ _ greeted d)

absent_clash :
    (pk : Text) (adv_name : Option Text) (now : ℕ) (users : List User)
    → All (λ y. has_pubkey pk y ≡ false) users
    → All (λ y. clash y (new_user pk adv_name now) ≡ false) users
unfolding opt_eq
absent_clash pk adv_name now [] h = tt
absent_clash pk adv_name now (y ∷ users) h =
    (ground (arith, h.0, opt_eq_iff y.display_name_lc none), absent_clash pk adv_name now users h.1)

-- Where no two users share a key or a display name, none do after a message has been noted, from a
-- known sender or from a new one.
pub upsert_user_first_seen-AreDistinct :
    (db : Db) (pk : Text) (adv_name : Option Text) (now : ℕ)
    → AreDistinct db.users
    → AreDistinct (upsert_user_first_seen db pk adv_name now).0.users
unfolding upsert_user_first_seen
upsert_user_first_seen-AreDistinct db pk adv_name now d =
    let seen =
      same-AreDistinct (has_pubkey pk)
        (λ user. record user { last_seen = now; adv_name = coalesce adv_name user.adv_name })
        db.users (λ x. refl) (λ x. refl) d in
    elim (Option-cases (get_user db pk)) [
      | inl absent ↦
          let added =
            snoc-AreDistinct db.users (new_user pk adv_name now)
              (absent_clash pk adv_name now db.users
                (find_row-none (has_pubkey pk) db.users (unfold get_user in absent)))
              d in
          let same : (upsert_user_first_seen db pk adv_name now).0.users
              ≡ db.users ++ new_user pk adv_name now ∷ [] =
            ground (arith, absent) in
          subst AreDistinct (sym same) added
      | inr (user, found) ↦
          let same : (upsert_user_first_seen db pk adv_name now).0.users
              ≡ update_rows (has_pubkey pk)
                  (λ user. record user {
                    last_seen = now;
                    adv_name = coalesce adv_name user.adv_name;
                  })
                  db.users =
            ground (arith, found) in
          subst AreDistinct (sym same) seen
    ]
