-- ===== src/Services.antt =====
-- services/: the services behind the commands, and what they share.
pub mod Boards
pub mod Mails
pub mod Admin
pub mod News
pub mod Weather
use meshcore_bbs.Models.{User}
use meshcore_bbs.Prelude.{Option, [], none, some, take, ◌∷◌}
use meshcore_bbs.Text.{Text}

-- `a or b` of a text that may be None or empty, and a text that is neither.
unfoldable pub text_or : Option Text → Text → Text
text_or none other = other
text_or (some []) other = other
text_or (some (c ∷ s)) other = c ∷ s

-- `user.display_name if user and user.display_name else pubkey[:8]`.
unfoldable pub shown_name : Option User → Text → Text
unfolding text_or
shown_name none pubkey = take 8 pubkey
shown_name (some user) pubkey = text_or user.display_name (take 8 pubkey)
