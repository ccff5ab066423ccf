-- ===== src/Webhooks.antt =====
-- apps/api/src/webhooks/webhooks.controller.ts: the deliveries of Meta. The HMAC over the raw bytes is
-- Node's; the raw body and the parsed payload are numbers, and texts are lists of characters.
pub mod Single
mod Examples
use godeye.Prelude.{
  take, Text, same_text, ℕ, zero, suc, ◌+◌, ◌*◌, ◌-◌, ◌≤◌, refl, Bool, true, false, not, ◌&&◌, ◌||◌,
  Option, none, some, List, [], ◌∷◌, ◌++◌, ◌==◌, ltb, leb, length, all, if◌then◌else◌, Result, ok,
  err,
}
use godeye.Db.{Table}

pub record WebhookEvent : Type 0 where
  pub id : ℕ
  pub external_id : Option Text
  pub payload : ℕ

abbrev pub event_key : WebhookEvent → ℕ
event_key e = e.id

abbrev pub event_clash : WebhookEvent → WebhookEvent → Bool
event_clash r s = r.id == s.id

-- An entry of a batch; a time that is missing reads as the empty text.
pub record Entry : Type 0 where
  pub id : Option Text
  pub time : Text

-- A delivery: the raw body with its length, the signature header, and the batch that it parses to.
pub record Delivery : Type 0 where
  pub raw : Option ℕ
  pub raw_length : ℕ
  pub signature : Option Text
  pub payload : ℕ
  pub entries : List Entry

pub data WebhookRefusal : Type 0 where
  payload_too_large invalid_signature verification_failed write_failed : WebhookRefusal

pub data Receipt : Type 0 where
  received duplicate : Receipt

abbrev pub max_body_bytes : ℕ
max_body_bytes = 1024 * 1024

abbrev pub entry_text : Entry → Text
entry_text e = elim e.id [ none ↦ [] | some i ↦ i ++ b':' ∷ e.time ]

-- `.map(...).filter(Boolean)`
abbrev pub entry_texts : List Entry → List Text
entry_texts [] = []
entry_texts (e ∷ es) = elim (entry_text e) [
  | [] ↦ entry_texts es
  | c ∷ cs ↦ (c ∷ cs) ∷ entry_texts es
]

abbrev pub join_bars : List Text → Text
join_bars [] = []
join_bars (w ∷ []) = w
join_bars (w ∷ v ∷ ws) = w ++ b'|' ∷ join_bars (v ∷ ws)

unfoldable pub event_id : List Entry → Option Text
event_id entries = elim (entry_texts entries) [
  | [] ↦ none
  | w ∷ ws ↦ some (take 191 (join_bars (w ∷ ws)))
]

abbrev pub lower_char : ℕ → ℕ
lower_char c = if leb b'A' c && leb c b'Z' then c + 32 else c

abbrev pub to_lower : Text → Text
to_lower [] = []
to_lower (c ∷ cs) = lower_char c ∷ to_lower cs

-- `/[0-9a-f]/i`
abbrev pub is_hex : ℕ → Bool
is_hex c = leb b'0' c && leb c b'9' || leb b'a' (lower_char c) && leb (lower_char c) b'f'

-- What follows `sha256=`, if the text starts so.
unfoldable pub after_prefix : Text → Text → Option Text
after_prefix [] w = some w
after_prefix (p ∷ ps) [] = none
after_prefix (p ∷ ps) (c ∷ cs) = let later = after_prefix ps cs in if p == c then later else none

abbrev pub sha256_prefix : Text
sha256_prefix = b's' ∷ b'h' ∷ b'a' ∷ b'2' ∷ b'5' ∷ b'6' ∷ b'=' ∷ []

-- The lengths first, and no empty text.
abbrev pub constant_time_equals : Text → Text → Bool
constant_time_equals a b = length a == length b && ltb 0 (length a) && same_text a b

-- The token is `none` where the configuration throws.
unfoldable pub verify_meta :
    (expected : Option Text) → (subscribes : Bool) → Text → ℕ → Result WebhookRefusal ℕ
verify_meta none subscribes token challenge = err verification_failed
verify_meta (some expected) subscribes token challenge =
    if subscribes && not (length expected == 0) && constant_time_equals token expected
    then ok challenge
    else err verification_failed

module _ (hmac : (secret raw : ℕ) → Text) (app_secret : Option ℕ) where
  unfoldable pub valid_signature : Option ℕ → Option Text → Bool
  valid_signature none signature = false
  valid_signature (some raw) none = false
  valid_signature (some raw) (some signature) = elim (after_prefix sha256_prefix signature) [
    | none ↦ false
    | some provided ↦ elim app_secret [
      | none ↦ false
      | some secret ↦
          length provided == 64
          && all is_hex provided
          && constant_time_equals (to_lower (hmac secret raw)) (to_lower provided)
    ]
  ]

  module _ (T : Table WebhookEvent event_key event_clash) where
    abbrev pub with_external : Text → WebhookEvent → Bool
    with_external external e = elim e.external_id [ none ↦ false | some x ↦ same_text x external ]

    -- `id` is the one that the database gives the row.
    unfoldable pub store_event :
        T.Rows → (id : ℕ) → Option Text → ℕ → T.Rows × Result WebhookRefusal Receipt
    store_event rows id external payload =
        elim (T.create (record { id = id; external_id = external; payload = payload }) rows) [
          | none ↦ (rows, err write_failed)
          | some rows' ↦ (rows', ok received)
        ]

    unfoldable pub receive_meta :
        T.Rows → (id : ℕ) → Delivery → T.Rows × Result WebhookRefusal Receipt
    receive_meta rows id d =
        if ltb max_body_bytes d.raw_length
        then (rows, err payload_too_large)
        else if not (valid_signature d.raw d.signature)
        then (rows, err invalid_signature)
        else elim (event_id d.entries) [
          | none ↦ store_event rows id none d.payload
          | some external ↦ elim (T.find_first (with_external external) rows) [
            | some seen ↦ (rows, ok duplicate)
            | none ↦ store_event rows id (some external) d.payload
          ]
        ]
