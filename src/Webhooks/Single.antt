-- ===== src/Webhooks/Single.antt =====
-- A delivery that comes again is stored once, and one that is not signed is not stored.
use godeye.Prelude.{
  Text, same_text_refl, same_text-eq, ℕ, ◌≡◌, refl, ap, ◌∙◌, sym, true, false, Option, none, some,
  List, [], ◌∷◌, arith, ◌==◌, ltb, ok, is_ok, Option-cases, Bool-cases, inl, inr, ◌⊎◌,
}
use godeye.Db.{Table}
use godeye.Webhooks.{
  WebhookEvent, event_key, event_clash, Delivery, Receipt, duplicate, max_body_bytes, event_id,
  valid_signature, with_external, store_event, receive_meta,
}

module _ (hmac : (secret raw : ℕ) → Text) (app_secret : Option ℕ)
    (T : Table WebhookEvent event_key event_clash) where
  -- No two stored events have the same external id.
  abbrev pub IsSingle : T.Rows → Type 0
  IsSingle rows =
      (j k : ℕ) (a b : WebhookEvent) (x : Text)
      → T.find_unique rows j ≡ some a
      → T.find_unique rows k ≡ some b
      → a.external_id ≡ some x
      → b.external_id ≡ some x
      → j ≡ k

  with_external-is :
      (x : Text) (e : WebhookEvent)
      → e.external_id ≡ some x
      → with_external hmac app_secret T x e ≡ true
  with_external-is x e has = ground (arith, same_text_refl x)

  absurd_same :
      (x : Text) (e : WebhookEvent)
      → e.external_id ≡ some x
      → with_external hmac app_secret T x e ≡ false
      → ⊥
  absurd_same x e has h = ground (arith, with_external-is x e has)

  with_external-has :
      (x : Text) (e : WebhookEvent)
      → with_external hmac app_secret T x e ≡ true
      → e.external_id ≡ some x
  with_external-has x e h = elim (Option-cases e.external_id) [
    | inl missing ↦ ground arith
    | inr (y, has) ↦ has ∙ ap some (same_text-eq y x (ground arith))
  ]

  store-IsSingle :
      (rows : T.Rows) (id : ℕ) (external : Option Text) (payload : ℕ)
      → IsSingle rows
      → ((x : Text) (k : ℕ) (e : WebhookEvent)
          → external ≡ some x
          → T.find_unique rows k ≡ some e
          → with_external hmac app_secret T x e ≡ false)
      → IsSingle (store_event hmac app_secret T rows id external payload).0
  unfolding store_event
  store-IsSingle rows id external payload single fresh j k a b x at_j at_k is_a is_b =
      let row : WebhookEvent = record { id = id; external_id = external; payload = payload } in
      elim (Option-cases (T.create row rows)) [
        | inl failed ↦ ground (arith, single j k a b x)
        | inr (rows', made) ↦
            let new_j = T.find_unique-create row rows rows' j made in
            let new_k = T.find_unique-create row rows rows' k made in
            let here : external ≡ some x
                → (m : ℕ) → (e : WebhookEvent) → T.find_unique rows m ≡ some e
                → e.external_id ≡ some x
                → ⊥ =
              λ is m e at has. absurd_same x e has (fresh x m e is at) in
            elim (Bool-cases (id == j)) [
              | inl same_j ↦ elim (Bool-cases (id == k)) [
                | inl same_k ↦ ground arith
                | inr other_k ↦ absurd (here (ground arith) k b (ground arith) is_b)
              ]
              | inr other_j ↦ elim (Bool-cases (id == k)) [
                | inl same_k ↦ absurd (here (ground arith) j a (ground arith) is_a)
                | inr other_k ↦ ground (arith, single j k a b x)
              ]
            ]
      ]

  IsFresh : T.Rows → Option Text → Type 0
  IsFresh rows external =
      (x : Text) (k : ℕ) (e : WebhookEvent)
      → external ≡ some x
      → T.find_unique rows k ≡ some e
      → with_external hmac app_secret T x e ≡ false

  first-IsFresh :
      (rows : T.Rows) (external : Text)
      → T.find_first (with_external hmac app_secret T external) rows ≡ none
      → IsFresh rows (some external)
  unfolding IsFresh
  first-IsFresh rows external missing x k e is at =
      let same : external ≡ x = ground arith in
      ap (λ w. with_external hmac app_secret T w e) (sym same)
      ∙ T.find_first-none (with_external hmac app_secret T external) rows k e missing at

  -- Either nothing is written, or a signed delivery of an id that is not stored yet.
  receive_cases :
      (rows : T.Rows) (id : ℕ) (d : Delivery)
      → ((receive_meta hmac app_secret T rows id d).0 ≡ rows)
        ⊎ ((external : Option Text) × (valid_signature hmac app_secret d.raw d.signature ≡ true)
            × ((receive_meta hmac app_secret T rows id d).0
                ≡ (store_event hmac app_secret T rows id external d.payload).0)
            × IsFresh rows external)
  unfolding receive_meta IsFresh
  receive_cases rows id d = elim (Bool-cases (ltb max_body_bytes d.raw_length)) [
    | inl large ↦ inl (ground arith)
    | inr fits ↦ elim (Bool-cases (valid_signature hmac app_secret d.raw d.signature)) [
      | inr unsigned ↦ inl (ground arith)
      | inl signed ↦ elim (Option-cases (event_id d.entries)) [
        | inl no_id ↦ inr (none, signed, ground arith, λ x k e is at. ground arith)
        | inr (external, named) ↦
            elim (Option-cases (T.find_first (with_external hmac app_secret T external) rows)) [
              | inr (e, seen) ↦ inl (ground arith)
              | inl missing ↦
                  inr (some external, signed, ground arith, first-IsFresh rows external missing)
            ]
      ]
    ]
  ]

  receive-IsSingle :
      (rows : T.Rows) (id : ℕ) (d : Delivery)
      → IsSingle rows
      → IsSingle (receive_meta hmac app_secret T rows id d).0
  unfolding IsFresh
  receive-IsSingle rows id d single = elim (receive_cases rows id d) [
    | inl same ↦ rw same single
    | inr (external, signed, stored, fresh) ↦
        rw stored (store-IsSingle rows id external d.payload single fresh)
  ]

  -- Deliveries one after the other, each with the id that its row would get.
  pub run_deliveries : T.Rows → List (ℕ × Delivery) → T.Rows
  run_deliveries rows [] = rows
  run_deliveries rows ((id, d) ∷ rest) =
      run_deliveries (receive_meta hmac app_secret T rows id d).0 rest

  -- Of the deliveries that come one after the other, signed or not, in whatever order and however
  -- often, no two are stored under one external id.
  pub run_deliveries-IsSingle :
      (deliveries : List (ℕ × Delivery)) (rows : T.Rows)
      → IsSingle rows
      → IsSingle (run_deliveries rows deliveries)
  unfolding run_deliveries
  run_deliveries-IsSingle [] rows single = single
  run_deliveries-IsSingle ((id, d) ∷ rest) rows single =
      run_deliveries-IsSingle rest (receive_meta hmac app_secret T rows id d).0
        (receive-IsSingle rows id d single)

  store_event-keeps :
      (rows : T.Rows) (id : ℕ) (external : Option Text) (payload k : ℕ) (e : WebhookEvent)
      → T.find_unique rows k ≡ some e
      → T.find_unique (store_event hmac app_secret T rows id external payload).0 k ≡ some e
  unfolding store_event
  store_event-keeps rows id external payload k e at =
      let row : WebhookEvent = record { id = id; external_id = external; payload = payload } in
      elim (Option-cases (T.create row rows)) [
        | inl failed ↦ ground arith
        | inr (rows', made) ↦ ground (
          arith,
          T.find_unique-create row rows rows' k made,
          T.create-clash row rows k e at,
          T.find_unique-key rows k e at,
        )
      ]

  run_deliveries-keeps :
      (deliveries : List (ℕ × Delivery)) (rows : T.Rows) (k : ℕ) (e : WebhookEvent)
      → T.find_unique rows k ≡ some e
      → T.find_unique (run_deliveries rows deliveries) k ≡ some e
  unfolding run_deliveries
  run_deliveries-keeps [] rows k e at = at
  run_deliveries-keeps ((id, d) ∷ rest) rows k e at =
      run_deliveries-keeps rest (receive_meta hmac app_secret T rows id d).0 k e
        (elim (receive_cases rows id d) [
          | inl same ↦ rw same at
          | inr (external, signed, stored, fresh) ↦
              rw stored (store_event-keeps rows id external d.payload k e at)
        ])

  -- A delivery of an id that is accepted leaves an event with that id.
  receive-stored :
      (rows : T.Rows) (id : ℕ) (d : Delivery) (external : Text) (r : Receipt)
      → event_id d.entries ≡ some external
      → (receive_meta hmac app_secret T rows id d).1 ≡ ok r
      → (k : ℕ) × (e : WebhookEvent) × (T.find_unique (receive_meta hmac app_secret T rows id d).0 k
          ≡ some e)
        × (e.external_id ≡ some external)
  unfolding receive_meta store_event
  receive-stored rows id d external r named accepted =
      let row : WebhookEvent = record {
        id = id;
        external_id = some external;
        payload = d.payload;
      } in
      elim (Option-cases (T.find_first (with_external hmac app_secret T external) rows)) [
        | inr (e, seen) ↦
            let (is, at) =
              T.find_first-sound (with_external hmac app_secret T external) rows e seen in
            (e.id, e, ground arith, with_external-has external e is)
        | inl missing ↦ elim (Option-cases (T.create row rows)) [
          | inl failed ↦ ground arith
          | inr (rows', made) ↦
              (id, row, ground (arith, T.find_unique-create row rows rows' id made), refl)
        ]
      ]

  receive-known :
      (rows : T.Rows) (id : ℕ) (d : Delivery) (external : Text) (e : WebhookEvent)
      → ltb max_body_bytes d.raw_length ≡ false
      → valid_signature hmac app_secret d.raw d.signature ≡ true
      → event_id d.entries ≡ some external
      → T.find_first (with_external hmac app_secret T external) rows ≡ some e
      → receive_meta hmac app_secret T rows id d ≡ (rows, ok duplicate)
  unfolding receive_meta
  receive-known rows id d external e fits signed named seen = ground arith

  receive-unsigned :
      (rows : T.Rows) (id : ℕ) (d : Delivery)
      → valid_signature hmac app_secret d.raw d.signature ≡ false
      → ((receive_meta hmac app_secret T rows id d).0 ≡ rows)
        × (is_ok (receive_meta hmac app_secret T rows id d).1 ≡ false)
  unfolding receive_meta
  receive-unsigned rows id d unsigned = elim (Bool-cases (ltb max_body_bytes d.raw_length)) [
    | inl large ↦ (ground arith, ground arith)
    | inr fits ↦ (ground arith, ground arith)
  ]

  accepted-checks :
      (rows : T.Rows) (id : ℕ) (d : Delivery) (r : Receipt)
      → (receive_meta hmac app_secret T rows id d).1 ≡ ok r
      → (ltb max_body_bytes d.raw_length ≡ false)
        × (valid_signature hmac app_secret d.raw d.signature ≡ true)
  unfolding receive_meta
  accepted-checks rows id d r accepted = elim (Bool-cases (ltb max_body_bytes d.raw_length)) [
    | inl large ↦ ground arith
    | inr fits ↦ elim (Bool-cases (valid_signature hmac app_secret d.raw d.signature)) [
      | inl signed ↦ (fits, signed)
      | inr unsigned ↦ ground arith
    ]
  ]

  -- A delivery with an id that was accepted is not stored again: whatever deliveries come in
  -- between, the same one is afterwards answered as a duplicate and changes nothing. A delivery that
  -- is not signed is refused and changes nothing.
  pub receive_meta-once :
      (rows : T.Rows) (id later : ℕ) (d : Delivery) (external : Text) (r : Receipt)
      (between : List (ℕ × Delivery)) (other : Delivery)
      → event_id d.entries ≡ some external
      → (receive_meta hmac app_secret T rows id d).1 ≡ ok r
      → valid_signature hmac app_secret other.raw other.signature ≡ false
      → let left = run_deliveries (receive_meta hmac app_secret T rows id d).0 between in
        (receive_meta hmac app_secret T left later d ≡ (left, ok duplicate))
        × ((receive_meta hmac app_secret T left later other).0 ≡ left)
        × (is_ok (receive_meta hmac app_secret T left later other).1 ≡ false)
  receive_meta-once rows id later d external r between other named accepted unsigned =
      let (k, e, at, has) = receive-stored rows id d external r named accepted in
      let (fits, signed) = accepted-checks rows id d r accepted in
      let left = run_deliveries (receive_meta hmac app_secret T rows id d).0 between in
      let still =
        run_deliveries-keeps between (receive_meta hmac app_secret T rows id d).0 k e at in
      let (same, refused) = receive-unsigned left later other unsigned in
      elim (Option-cases (T.find_first (with_external hmac app_secret T external) left)) [
        | inl missing ↦ absurd (
            absurd_same external e has
              (T.find_first-none (with_external hmac app_secret T external) left k e missing still))
        | inr (e2, seen) ↦
            (receive-known left later d external e2 fits signed named seen, same, refused)
      ]
