-- ===== src/Transport/Mock.antt =====
-- transport/mock.py: the transport without hardware, which records what is sent and takes the messages
-- that it is told to receive.
use mathlib.Core.List.{reverse, reverse-append}
use meshcore_bbs.Prelude.{
  Bool, Bool-cases, List, Option, [], any, arith, false, filter, if◌then◌else◌, inl, inr, length,
  none, not, or_else, refl, some, true, ℕ, ◌++◌, ◌∷◌, ◌≡◌,
}
use meshcore_bbs.Text.{Text, Unicode, lower, str_eq}
use meshcore_bbs.Text.Laws.{str_eq_refl}
use meshcore_bbs.Transport.{
  SendOutcome, TransportEvent, connected, contact_msg_recv, delivered, disconnected, mesh_activity,
}

-- The queue of events as a list, its end last. The default of `next_send_outcome` is `OK`.
record MockTransport : Type 0 where
  self_pubkey : Text
  events : List TransportEvent
  sent : List (Text × Text)
  next_send_outcome : List (Text × SendOutcome)
  contact_pubkeys : List Text
  contact_capacity_max : ℕ
  inbound_paths : List (Text × List Text)
  adverts_sent : List Bool
  started : Bool
  stopped : Bool

abbrev new_mock : Text → ℕ → MockTransport
new_mock self_pubkey contact_capacity_max = record {
  self_pubkey = self_pubkey;
  events = [];
  sent = [];
  next_send_outcome = [];
  contact_pubkeys = [];
  contact_capacity_max = contact_capacity_max;
  inbound_paths = [];
  adverts_sent = [];
  started = false;
  stopped = false;
}

module _ {ℓ} {A : Type ℓ} where
  -- The value of a key of a dict, and the assignment to it.
  look : Text → List (Text × A) → Option A
  look k [] = none
  look k ((j, x) ∷ rest) = let later = look k rest in if str_eq j k then some x else later

  put : Text → A → List (Text × A) → List (Text × A)
  put k x [] = (k, x) ∷ []
  put k x ((j, y) ∷ rest) =
      let later = put k x rest in if str_eq j k then (k, x) ∷ rest else (j, y) ∷ later

-- `set.add`.
add_key : Text → List Text → List Text
add_key k keys = if any (str_eq k) keys then keys else keys ++ k ∷ []

put_event : TransportEvent → MockTransport → MockTransport
put_event event t = record t { events = t.events ++ event ∷ [] }

unfoldable start_mock : MockTransport → MockTransport
unfolding put_event
start_mock t = put_event (connected false) (record t { started = true })

unfoldable stop_mock : MockTransport → MockTransport
unfolding put_event
stop_mock t = put_event disconnected (record t { stopped = true })

unfoldable mock_radio_available : MockTransport → Bool
mock_radio_available t = not t.stopped

unfoldable mock_send_msg : Text → Text → MockTransport → MockTransport × SendOutcome
unfolding look
mock_send_msg to_pubkey body t = (
  record t { sent = t.sent ++ (to_pubkey, body) ∷ [] },
  or_else (look to_pubkey t.next_send_outcome) delivered,
)

unfoldable mock_send_advert : Bool → MockTransport → MockTransport
mock_send_advert flood t = record t { adverts_sent = t.adverts_sent ++ flood ∷ [] }

unfoldable mock_contact_capacity : MockTransport → ℕ × ℕ
mock_contact_capacity t = (length t.contact_pubkeys, t.contact_capacity_max)

unfoldable prune_contact : Text → MockTransport → MockTransport
prune_contact pubkey t = record t {
  contact_pubkeys = filter (λ k. not (str_eq k pubkey)) t.contact_pubkeys;
  inbound_paths = filter (λ entry. not (str_eq entry.0 pubkey)) t.inbound_paths;
}

unfoldable mock_inbound_path : Text → MockTransport → List Text
unfolding look
mock_inbound_path pubkey t = or_else (look pubkey t.inbound_paths) []

unfoldable inject_mesh_activity : Unicode → Text → MockTransport → MockTransport
unfolding put_event add_key
inject_mesh_activity u pubkey t =
    put_event (mesh_activity (some (lower u pubkey)))
      (record t { contact_pubkeys = add_key pubkey t.contact_pubkeys })

-- `received_at` and `path` may be left out.
unfoldable inject_inbound :
    ℕ
    → Text
    → Text
    → Option Text
    → Option ℕ
    → Option ℕ
    → Option (List Text)
    → MockTransport
    → MockTransport
unfolding put_event add_key put
inject_inbound now pubkey body adv_name received_at hops path t =
    put_event
      (contact_msg_recv (
        some (record {
          pubkey = pubkey;
          adv_name = adv_name;
          body = body;
          received_at = or_else received_at now;
          hops = hops;
          path = or_else path [];
        })))
      (record t {
        contact_pubkeys = add_key pubkey t.contact_pubkeys;
        inbound_paths = elim path [
          | none ↦ t.inbound_paths
          | some p ↦ put pubkey p t.inbound_paths
        ];
      })

bodies_to : Text → List (Text × Text) → List Text
bodies_to pubkey [] = []
bodies_to pubkey ((pk, body) ∷ sent) =
    let rest = bodies_to pubkey sent in if str_eq pk pubkey then body ∷ rest else rest

unfoldable all_sent_to : Text → MockTransport → List Text
unfolding bodies_to
all_sent_to pubkey t = bodies_to pubkey t.sent

-- The first of the bodies from the end.
unfoldable last_sent_to : Text → MockTransport → Option Text
unfolding look
last_sent_to pubkey t = look pubkey (reverse t.sent)

look-put {ℓ} :
    {A : Type ℓ}
    → (k : Text) (x : A) (entries : List (Text × A)) → look k (put k x entries) ≡ some x
unfolding look put
look-put k x [] = rw (str_eq_refl k) refl
look-put k x ((j, y) ∷ rest) = elim (Bool-cases (str_eq j k)) [
  | inl same ↦ rw same (rw (str_eq_refl k, look) refl)
  | inr other ↦ rw other (rw (other, look) (look-put k x rest))
]

bodies_to-snoc :
    (pk body : Text) (sent : List (Text × Text))
    → bodies_to pk (sent ++ (pk, body) ∷ []) ≡ bodies_to pk sent ++ body ∷ []
unfolding bodies_to
bodies_to-snoc pk body [] = rw (str_eq_refl pk) refl
bodies_to-snoc pk body ((k, x) ∷ sent) = grind (arith, bodies_to-snoc pk body sent)

look-pruned {ℓ} :
    {A : Type ℓ}
    → (k : Text) (entries : List (Text × A))
    → look k (filter (λ entry. not (str_eq entry.0 k)) entries) ≡ none
unfolding look
look-pruned k [] = refl
look-pruned k ((j, y) ∷ rest) = elim (Bool-cases (str_eq j k)) [
  | inl same ↦ rw same (look-pruned k rest)
  | inr other ↦ rw other (rw (other, look) (look-pruned k rest))
]

-- A body that was sent is the last one to its recipient, behind all that were sent to it before.
sent_last :
    (pk body : Text) (t : MockTransport)
    → (last_sent_to pk (mock_send_msg pk body t).0 ≡ some body)
      × (all_sent_to pk (mock_send_msg pk body t).0 ≡ all_sent_to pk t ++ body ∷ [])
unfolding last_sent_to mock_send_msg all_sent_to look
sent_last pk body t = (
  rw (reverse-append t.sent ((pk, body) ∷ []), str_eq_refl pk) refl,
  bodies_to-snoc pk body t.sent,
)

-- A contact that was pruned has no path until it is heard again with one.
path_after_pruning :
    (now : ℕ) (pk body : Text) (path : List Text) (t : MockTransport)
    → (mock_inbound_path pk (prune_contact pk t) ≡ [])
      × (mock_inbound_path pk
            (inject_inbound now pk body none none none (some path) (prune_contact pk t))
          ≡ path)
unfolding mock_inbound_path inject_inbound prune_contact put_event
path_after_pruning now pk body path t =
    (rw (look-pruned pk t.inbound_paths) refl, rw (look-put pk path _) refl)
