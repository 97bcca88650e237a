-- ===== src/Tests.antt =====
-- Concrete users, queues and runs, which the tests of the child modules share.
mod Queue
mod Replies
mod People
mod Program
use meshcore_bbs.Config.{default_config, make_services}
use meshcore_bbs.Db.{Db, empty_db}
use meshcore_bbs.Db.Users.{new_user}
use meshcore_bbs.Dispatcher.{Bbs, Setting}
use meshcore_bbs.Models.{User}
use meshcore_bbs.Prelude.{[], false, none, some, true, ◌==◌, ◌∷◌}
use meshcore_bbs.Text.{Text, Unicode, lit}
use meshcore_bbs.Transport.{InboundMessage}

-- Tables in which nothing beyond ASCII has a case or is a digit.
abbrev pub plain : Unicode
plain = record {
  lower_of = λ c. c ∷ [];
  upper_of = λ c. c ∷ [];
  is_digit_of = λ c. false;
  digit_value_of = λ c. none;
  same_letter = λ a b. a == b;
  is_letter_or_number = λ c. false;
}

abbrev pub alice_key : Text
alice_key = lit "aa11bb22"

abbrev pub bob_key : Text
bob_key = lit "bb33cc44"

abbrev pub mallory_key : Text
mallory_key = lit "cc55dd66"

abbrev named : Text → Text → Text → User
named pk name lc = record (new_user pk none 100) {
  display_name = some name;
  display_name_lc = some lc;
  onboarded = true;
}

abbrev pub alice : User
alice = named alice_key (lit "Alice") (lit "alice")

abbrev pub bob : User
bob = named bob_key (lit "Bob") (lit "bob")

abbrev pub mallory : User
mallory = record (named mallory_key (lit "Mal") (lit "mal")) { banned = true }

abbrev pub some_db : Db
some_db = record empty_db { users = alice ∷ bob ∷ mallory ∷ [] }

abbrev pub some_bbs : Bbs
some_bbs = record { db = some_db; staged = []; notified = []; adverts = 0 }

abbrev pub some_setting : Setting
some_setting = record {
  unicode = plain;
  cfg = default_config;
  self_pubkey = lit "00ff";
  started_at = 0;
  version = lit "1.0";
  services = make_services default_config;
  json = record { dumps = λ w. []; loads = λ t. none };
  fetched = none;
  resolve_inbound_path = λ pk. [];
}

abbrev pub direct_message : Text → Text → InboundMessage
direct_message pk body = record {
  pubkey = pk;
  adv_name = none;
  body = body;
  received_at = 200;
  hops = some 0;
  path = [];
}
