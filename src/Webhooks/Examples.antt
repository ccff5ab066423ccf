-- ===== src/Webhooks/Examples.antt =====
-- Concrete deliveries, on which the theorems about the webhook are applied.
use godeye.Prelude.{
  Text, same_text, ℕ, ◌≡◌, refl, true, false, none, some, [], ◌∷◌, arith, ok, is_ok,
}
use godeye.Db.{Table}
use godeye.Db.ListTable.{list_table}
use godeye.Webhooks.{
  WebhookEvent, event_key, event_clash, Delivery, received, duplicate, event_id, valid_signature,
  after_prefix, store_event, receive_meta,
}
use godeye.Webhooks.Single.{run_deliveries, receive_meta-once}

event-covers : (r s : WebhookEvent) → event_key r ≡ event_key s → event_clash r s ≡ true
event-covers r s h = ground arith

abbrev events : Table WebhookEvent event_key event_clash
events = list_table event_key event_clash event-covers

-- In place of HMAC-SHA256: 64 times the digit 7.
abbrev sevens : Text
sevens =
    55 ∷ 55 ∷ 55 ∷ 55 ∷ 55 ∷ 55 ∷ 55 ∷ 55 ∷ 55 ∷ 55 ∷ 55 ∷ 55 ∷ 55 ∷ 55 ∷ 55 ∷ 55 ∷ 55 ∷ 55 ∷ 55
    ∷ 55 ∷ 55 ∷ 55 ∷ 55 ∷ 55 ∷ 55 ∷ 55 ∷ 55 ∷ 55 ∷ 55 ∷ 55 ∷ 55 ∷ 55 ∷ 55 ∷ 55 ∷ 55 ∷ 55 ∷ 55 ∷ 55
    ∷ 55 ∷ 55 ∷ 55 ∷ 55 ∷ 55 ∷ 55 ∷ 55 ∷ 55 ∷ 55 ∷ 55 ∷ 55 ∷ 55 ∷ 55 ∷ 55 ∷ 55 ∷ 55 ∷ 55 ∷ 55 ∷ 55
    ∷ 55 ∷ 55 ∷ 55 ∷ 55 ∷ 55 ∷ 55 ∷ 55 ∷ []

abbrev digest : ℕ → ℕ → Text
digest secret raw = sevens

abbrev page_event : Delivery
page_event = record {
  raw = some 5;
  raw_length = 300;
  signature = some (b's' ∷ b'h' ∷ b'a' ∷ b'2' ∷ b'5' ∷ b'6' ∷ b'=' ∷ sevens);
  payload = 5;
  entries = record { id = some (b'8' ∷ []); time = b'9' ∷ [] } ∷ [];
}

abbrev unsigned_event : Delivery
unsigned_event = record page_event { signature = none }

abbrev no_events : events.Rows
unfolding list_table
no_events = ([], tt)

receive_meta-once_example :
    let left =
      run_deliveries digest
        (some 1)
        events
        (receive_meta digest (some 1) events no_events 1 page_event).0
        ((2, unsigned_event) ∷ []) in
    (receive_meta digest (some 1) events left 3 page_event ≡ (left, ok duplicate))
    × ((receive_meta digest (some 1) events left 3 unsigned_event).0 ≡ left)
    × (is_ok (receive_meta digest (some 1) events left 3 unsigned_event).1 ≡ false)
unfolding list_table receive_meta event_id valid_signature after_prefix same_text store_event
receive_meta-once_example =
    receive_meta-once digest (some 1) events no_events 1 3 page_event (b'8' ∷ b':' ∷ b'9' ∷ [])
      received ((2, unsigned_event) ∷ []) unsigned_event refl refl refl
