-- ===== src/Services/Mails/Notices.antt =====
-- How often a user is told of new mail.
use meshcore_bbs.Config.{MailConfig}
use meshcore_bbs.Prelude.{
  All, Bool, List, [], arith, false, if◌then◌else◌, true, ℕ, ◌+◌, ◌<◌, ◌∷◌, ◌≡◌, ◌≤◌,
}
use meshcore_bbs.Services.Mails.{last_notify, put_last_notify, should_notify}
use meshcore_bbs.Text.{Text, str_eq}
use meshcore_bbs.Text.Laws.{str_eq_iff, str_eq_refl}

last_notify-put :
    (pk other : Text) (t : ℕ) (notified : List (Text × ℕ))
    → last_notify other (put_last_notify pk t notified)
      ≡ (if str_eq pk other then t else last_notify other notified)
unfolding last_notify put_last_notify
last_notify-put pk other t [] = ground arith
last_notify-put pk other t ((k, s) ∷ rest) = ground (
  arith,
  str_eq_iff pk other,
  str_eq_iff k pk,
  str_eq_iff k other,
  last_notify-put pk other t rest,
)

-- The answers to a sequence of questions, each with its time and its user.
unfoldable pub asked : MailConfig → List (Text × ℕ) → List (ℕ × Text) → List Bool
asked cfg notified [] = []
asked cfg notified ((now, pk) ∷ questions) =
    (should_notify cfg now notified pk).1
    ∷ asked cfg (should_notify cfg now notified pk).0 questions

-- No question about the user before a time is answered with yes.
unfoldable pub AreQuiet : Text → ℕ → List (ℕ × Text) → List Bool → Type 0
AreQuiet pk until [] bs = Unit
AreQuiet pk until (q ∷ qs) [] = Unit
AreQuiet pk until ((now, who) ∷ qs) (b ∷ bs) =
    (str_eq who pk ≡ true → now < until → b ≡ false) × AreQuiet pk until qs bs

quiet_until :
    (cfg : MailConfig) (pk : Text) (since : ℕ) (questions : List (ℕ × Text))
    (notified : List (Text × ℕ))
    → since ≤ last_notify pk notified
    → All (λ q. since ≤ q.0) questions
    → AreQuiet pk (since + cfg.notify_min_interval_seconds) questions (asked cfg notified questions)
unfolding AreQuiet asked should_notify
quiet_until cfg pk since [] notified told later = tt
quiet_until cfg pk since ((now, who) ∷ qs) notified told later =
    let next = (should_notify cfg now notified who).0 in
    let still : since ≤ last_notify pk next =
      ground (arith, later.0, told, last_notify-put who pk now notified) in
    (
      λ same soon. ground (arith, told, soon, (str_eq_iff who pk).0 same),
      quiet_until cfg pk since qs next still later.1,
    )

-- A user who has been told of new mail is not told again before the interval has passed, whoever else
-- is asked about in between, if the clock is not set back behind that time.
pub should_notify-AreQuiet :
    (cfg : MailConfig) (pk : Text) (now : ℕ) (notified : List (Text × ℕ))
    (questions : List (ℕ × Text))
    → (should_notify cfg now notified pk).1 ≡ true
    → All (λ q. now ≤ q.0) questions
    → AreQuiet pk
        (now + cfg.notify_min_interval_seconds)
        questions
        (asked cfg (should_notify cfg now notified pk).0 questions)
unfolding should_notify
should_notify-AreQuiet cfg pk now notified questions due later =
    quiet_until cfg pk now questions (should_notify cfg now notified pk).0
      (ground (arith, last_notify-put pk pk now notified, str_eq_refl pk)) later
