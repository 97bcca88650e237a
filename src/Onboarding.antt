-- ===== src/Onboarding.antt =====
-- onboarding.py: the choice of a display name.
pub mod Distinct
use meshcore_bbs.Db.{Db}
use meshcore_bbs.Db.Audit.{audit}
use meshcore_bbs.Db.Users.{mark_motd_sent, set_display_name}
use meshcore_bbs.Names.{name_max, name_min, validate_name_chars}
use meshcore_bbs.Prelude.{
  Bool, List, Option, [], any, false, if◌then◌else◌, leb, length, ltb, none, not, some, true, ℕ,
  ◌&&◌, ◌++◌, ◌∷◌,
}
use meshcore_bbs.Text.{Text, Unicode, lit, lower, str_eq}
use meshcore_bbs.Text.Decimal.{str}

abbrev pub reserved_names : List Text
reserved_names =
    lit "admin"
    ∷ lit "bbs"
    ∷ lit "system"
    ∷ lit "me"
    ∷ lit "all"
    ∷ lit "help"
    ∷ lit "root"
    ∷ lit "operator"
    ∷ lit "op"
    ∷ []

abbrev pub welcome_text : Text → Text
welcome_text bbs_name =
    lit "Welcome to "
    ++ (bbs_name
        ++ (lit ".\nChoose a display name ("
            ++ (str name_min
                ++ (lit "-"
                    ++ (str name_max
                        ++ lit " chars, A-Z 0-9 _ - emoji).\nReply: NAME <yourname>")))))

module _ (u : Unicode) where
  -- None if the name is acceptable, else the reason.
  unfoldable pub validate_name : Text → Option Text
  validate_name name =
      if not (leb name_min (length name) && leb (length name) name_max)
      then (if ltb name_max (length name)
          then some (lit "! Name too long (max " ++ (str name_max ++ lit ")"))
          else some (lit "! Name too short"))
      else elim (validate_name_chars u name) [
        | some reason ↦ some reason
        | none ↦
            if any (str_eq (lower u name)) reserved_names
            then some (lit "! Reserved name")
            else none
      ]

  -- The database, whether the name was given, and the reply.
  unfoldable pub try_set_name : Db → ℕ → Text → Text → Db × Bool × Text
  try_set_name db now pk name = elim (validate_name name) [
    | some reason ↦ (db, false, reason)
    | none ↦
        let (named, done) = set_display_name u db pk name in
        if done
        then (
          mark_motd_sent (audit named now (some pk) (lit "onboarded") (lit "name=" ++ name)) pk,
          true,
          lit "OK, you are " ++ (name ++ lit ". Try HELP for commands."),
        )
        else (db, false, lit "! Name taken")
  ]
