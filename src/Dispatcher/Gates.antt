-- ===== src/Dispatcher/Gates.antt =====
-- What a message can change, by who sent it.
use meshcore_bbs.Db.{Db}
use meshcore_bbs.Db.Users.{
  coalesce, get_user, has_pubkey, new_user, touch_user, upsert_user_first_seen,
}
use meshcore_bbs.Dispatcher.{Bbs, Setting, with_db}
use meshcore_bbs.Dispatcher.Inbound.{handle_inbound}
use meshcore_bbs.Dispatcher.Rights.{admit-KeepsRights, bans}
use meshcore_bbs.Prelude.{
  Bool, Bool-cases, Option, Option-cases, [], arith, false, inl, inr, map-append, map-update_rows,
  refl, ℕ, ◌++◌, ◌∙◌, ◌∷◌, ◌≡◌, ◌⊎◌,
}
use meshcore_bbs.Services.Admin.{is_admin}
use meshcore_bbs.Text.{Text, lower, str_eq}
use meshcore_bbs.Transport.{InboundMessage}

touch_user-bans :
    (db : Db) (pk : Text) (now : ℕ) (hops : Option ℕ) → bans (touch_user db pk now hops) ≡ bans db
unfolding touch_user
touch_user-bans db pk now hops =
    map-update_rows {B = Text × Bool} (λ user. (user.pubkey, user.banned)) (has_pubkey pk) _
      db.users (λ x. refl)

upsert-bans :
    (db : Db) (pk : Text) (adv_name : Option Text) (now : ℕ)
    → (bans (upsert_user_first_seen db pk adv_name now).0 ≡ bans db)
      ⊎ (bans (upsert_user_first_seen db pk adv_name now).0 ≡ bans db ++ (pk, false) ∷ [])
unfolding upsert_user_first_seen
upsert-bans db pk adv_name now =
    let seen =
      map-update_rows {B = Text × Bool} (λ user. (user.pubkey, user.banned)) (has_pubkey pk)
        (λ user. record user { last_seen = now; adv_name = coalesce adv_name user.adv_name })
        db.users (λ x. refl) in
    let added =
      map-append {B = Text × Bool} (λ user. (user.pubkey, user.banned)) db.users
        (new_user pk adv_name now ∷ []) in
    elim (Option-cases (get_user db pk)) [
      | inl absent ↦ ground (arith, added)
      | inr (user, found) ↦ ground (arith, seen)
    ]

upsert-boards :
    (db : Db) (pk : Text) (adv_name : Option Text) (now : ℕ)
    → (upsert_user_first_seen db pk adv_name now).0.boards ≡ db.boards
unfolding upsert_user_first_seen
upsert-boards db pk adv_name now = ground arith

touch-boards :
    (db : Db) (pk : Text) (now : ℕ) (hops : Option ℕ)
    → (touch_user db pk now hops).boards ≡ db.boards
unfolding touch_user
touch-boards db pk now hops = refl

module _ (e : Setting) (now : ℕ) where
  -- A message whose sender is no administrator leaves the boards, the staged broadcasts and the
  -- adverts as they are, and it bans nobody and lifts no ban; a new sender may be added, as a user
  -- who is not banned.
  pub handle_inbound_ordinary :
      (inbound : InboundMessage) (bbs : Bbs)
      → is_admin e.unicode e.services.admin inbound.pubkey ≡ false
      → let after = handle_inbound e now inbound bbs in
        (after.db.boards ≡ bbs.db.boards)
        × (after.staged ≡ bbs.staged)
        × (after.adverts ≡ bbs.adverts)
        × ((bans after.db ≡ bans bbs.db)
            ⊎ (bans after.db ≡ bans bbs.db ++ (inbound.pubkey, false) ∷ []))
  unfolding handle_inbound
  handle_inbound_ordinary inbound bbs h =
      let pk = inbound.pubkey in
      let up = upsert_user_first_seen bbs.db pk inbound.adv_name now in
      let touched = touch_user up.0 pk now inbound.hops in
      let admitted = admit-KeepsRights (with_db touched bbs) e now up.1 up.2 inbound h in
      elim (Bool-cases (str_eq pk (lower e.unicode e.self_pubkey))) [
        | inl own ↦ rw own (refl, refl, refl, inl refl)
        | inr other ↦ rw other (
          admitted.same_boards
              ∙ touch-boards up.0 pk now inbound.hops
              ∙ upsert-boards bbs.db pk inbound.adv_name now,
          admitted.same_staged,
          admitted.same_adverts,
          elim (upsert-bans bbs.db pk inbound.adv_name now) [
            | inl same ↦ inl (admitted.same_bans ∙ touch_user-bans up.0 pk now inbound.hops ∙ same)
            | inr more ↦ inr (admitted.same_bans ∙ touch_user-bans up.0 pk now inbound.hops ∙ more)
          ],
        )
      ]
