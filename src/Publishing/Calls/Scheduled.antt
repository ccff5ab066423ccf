-- ===== src/Publishing/Calls/Scheduled.antt =====
-- What `schedule` promises of the posts that it creates, and of a refusal.
use godeye.Prelude.{
  ◌==◌, ℕ, suc, ◌%◌, ◌≡◌, ◌⊎◌, inl, inr, refl, sym, ap, ◌∙◌, ◌&&◌, Bool, true, false, some, List,
  [], ◌∷◌, arith, if◌then◌else◌, Option-cases, ok, err, Result-cases, length, is_some, not,
}
use mathlib.Core.Path.{subst}
use godeye.Db.{Each, Apart}
use godeye.Publishing.Calls.Posts.{Moved-create}
use godeye.Publishing.Model.{
  ScheduleStatus, ScheduledPost, SocialConnection, ContentItem, connection_key, variant_a,
  variant_b, Tables, Data, Refusal, OrgSettings, is_active, is_approved,
}
use godeye.Publishing.Content.{find_content}
use godeye.Publishing.Scheduling.{
  SchedulePostInput, schedule, prepare, create_posts, new_post, new_posts, target_where, any_tiktok,
  member,
}

abbrev pub is_variant_a : ScheduledPost → Bool
is_variant_a p = elim p.variant_key [ some variant_a ↦ true | _ ↦ false ]

abbrev pub is_variant_b : ScheduledPost → Bool
is_variant_b p = elim p.variant_key [ some variant_b ↦ true | _ ↦ false ]

-- The number of posts that pass a test.
abbrev pub tally : (ScheduledPost → Bool) → List ScheduledPost → ℕ
tally q [] = 0
tally q (p ∷ ps) = if q p then suc (tally q ps) else tally q ps

-- As many, or one more.
abbrev pub Balanced : ℕ → ℕ → Type 0
Balanced m n = (m ≡ n) ⊎ (m ≡ suc n)

module _ (T : Tables) where
  open T use {contents as Contents, posts as Posts, connections as Connections, orgs as Orgs}

  -- A refused `schedule` leaves every table as it was.
  pub schedule-refused :
      (d : Data T) (now a : ℕ) (within : ℕ → Bool) (fresh : ℕ → ℕ) (input : SchedulePostInput)
      (e : Refusal)
      → (schedule T d now a within fresh input).1 ≡ err e
      → (schedule T d now a within fresh input).0 ≡ d
  unfolding schedule
  schedule-refused d now a within fresh input e bad =
      elim (Result-cases (prepare T d now a within input)) [
        | inl (r, stopped) ↦ ground arith
        | inr ((content, at, targets), good) ↦
            elim (Option-cases
              (create_posts T (new_posts a content input at fresh 0 targets) d.posts)) [
                | inl failed ↦ ground arith
                | inr (posts, made) ↦ ground arith
              ]
      ]

  -- What one new post promises: it waits in the workspace for an active connection of the
  -- workspace, at the time asked for, and has the TikTok settings where it needs them.
  abbrev pub IsGood : Data T → ℕ → SchedulePostInput → ScheduledPost → Type 0
  IsGood d a input p =
      (p.org_id ≡ a)
      × (p.content_item_id ≡ input.content_item_id)
      × (p.status ≡ ScheduleStatus.pending)
      × (input.scheduled_at ≡ some p.scheduled_at)
      × (member input.connection_ids p.connection_id ≡ true)
      × (c : SocialConnection) × (Connections.find_unique d.connections p.connection_id ≡ some c)
      × (c.org_id ≡ a)
      × (is_active c.status ≡ true)
      × (c.is_tiktok ≡ true → is_some p.tiktok_settings ≡ true)

  new_posts-IsGood :
      (d : Data T) (a : ℕ) (content : ContentItem) (input : SchedulePostInput) (at : ℕ)
      (fresh : ℕ → ℕ) (i : ℕ) (cs : List SocialConnection)
      → content.id ≡ input.content_item_id
      → input.scheduled_at ≡ some at
      → any_tiktok cs && not (is_some input.tiktok) ≡ false
      → Each
          (λ c.
            (target_where T a input.connection_ids c ≡ true)
            × (Connections.find_unique d.connections c.id ≡ some c))
          cs
      → Each (IsGood d a input) (new_posts a content input at fresh i cs)
  unfolding new_posts new_post target_where
  new_posts-IsGood d a content input at fresh i [] named date tiktok h = tt
  new_posts-IsGood d a content input at fresh i (c ∷ cs) named date tiktok (h, hs) = (
    (
      refl,
      named,
      refl,
      date,
      ground (arith, h.0),
      c,
      h.1,
      ground (arith, h.0),
      ground (arith, h.0),
      λ t. ground arith,
    ),
    new_posts-IsGood d a content input at fresh (suc i) cs named date (ground arith) hs,
  )

  found-named :
      (d : Data T) (a id : ℕ) (content : ContentItem)
      → find_content T d a id ≡ some content
      → content.id ≡ id
  unfolding find_content
  found-named d a id content e =
      let sound =
        Contents.find_first-sound (λ c. c.id == id && c.org_id == a) d.contents content e in
      ground arith

  away :
      (a : ℕ) (content : ContentItem) (input : SchedulePostInput) (at : ℕ) (fresh : ℕ → ℕ) (i : ℕ)
      (c : SocialConnection) (cs : List SocialConnection)
      → Each (λ b. (c.id == b.id) ≡ false) cs
      → Each (λ p. (c.id == p.connection_id) ≡ false) (new_posts a content input at fresh i cs)
  unfolding new_posts new_post
  away a content input at fresh i c [] apart = tt
  away a content input at fresh i c (b ∷ cs) apart =
      (apart.0, away a content input at fresh (suc i) c cs apart.1)

  Apart-new_posts :
      (a : ℕ) (content : ContentItem) (input : SchedulePostInput) (at : ℕ) (fresh : ℕ → ℕ) (i : ℕ)
      (cs : List SocialConnection)
      → Apart connection_key cs
      → Apart (λ p. p.connection_id) (new_posts a content input at fresh i cs)
  unfolding new_posts new_post
  Apart-new_posts a content input at fresh i [] apart = tt
  Apart-new_posts a content input at fresh i (c ∷ cs) apart = (
    away a content input at fresh (suc i) c cs apart.0,
    Apart-new_posts a content input at fresh (suc i) cs apart.1,
  )

  create_posts-stored :
      (a : ℕ) (ps : List ScheduledPost) (posts posts' : Posts.Rows)
      → create_posts T ps posts ≡ some posts'
      → Each (λ p. Posts.find_unique posts' p.id ≡ some p) ps
  unfolding create_posts
  create_posts-stored a [] posts posts' made = tt
  create_posts-stored a (p ∷ ps) posts posts' made = elim (Option-cases (Posts.create p posts)) [
    | inl failed ↦ ground arith
    | inr (next, first) ↦
        let there = Posts.find_unique-create p posts next p.id first in
        let rest : create_posts T ps next ≡ some posts' = ground arith in
        (
          Moved-create T a ps next posts' p.id p rest (ground arith),
          create_posts-stored a ps next posts' rest,
        )
  ]

  length-new_posts :
      (a : ℕ) (content : ContentItem) (input : SchedulePostInput) (at : ℕ) (fresh : ℕ → ℕ) (i : ℕ)
      (cs : List SocialConnection)
      → length (new_posts a content input at fresh i cs) ≡ length cs
  unfolding new_posts
  length-new_posts a content input at fresh i [] = refl
  length-new_posts a content input at fresh i (c ∷ cs) =
      ap suc (length-new_posts a content input at fresh (suc i) cs)

  -- What the checks of `schedule` establish when they all pass.
  record Prepared (d : Data T) (now a : ℕ) (within : ℕ → Bool) (input : SchedulePostInput)
      (content : ContentItem) (at : ℕ) (targets : List SocialConnection) : Type 0 where
    found : find_content T d a input.content_item_id ≡ some content
    gate :
        (o : OrgSettings)
        → Orgs.find_unique d.orgs a ≡ some o
        → o.require_approval ≡ true
        → is_approved content.status ≡ true
    date : input.scheduled_at ≡ some at
    complete : length targets ≡ length input.connection_ids
    from : targets ≡ Connections.find_many (target_where T a input.connection_ids) 100 d.connections
    tiktok : any_tiktok targets && not (is_some input.tiktok) ≡ false
    allowed : within (length targets) ≡ true

  prepare-Prepared :
      (d : Data T) (now a : ℕ) (within : ℕ → Bool) (input : SchedulePostInput)
      (content : ContentItem) (at : ℕ) (targets : List SocialConnection)
      → prepare T d now a within input ≡ ok (content, at, targets)
      → Prepared d now a within input content at targets
  unfolding prepare
  prepare-Prepared d now a within input content at targets e =
      elim (Option-cases (find_content T d a input.content_item_id)) [
        | inl missing ↦ ground arith
        | inr (c, found) ↦ elim (Option-cases (Orgs.find_unique d.orgs a)) [
          | inl missing ↦ ground arith
          | inr (org, had) ↦ elim (Option-cases input.scheduled_at) [
            | inl invalid ↦ ground arith
            | inr (when, date) ↦ record {
              found = ground arith;
              gate = λ o same asks. ground arith;
              date = ground arith;
              complete = ground arith;
              from = ground arith;
              tiktok = ground arith;
              allowed = ground arith;
            }
          ]
        ]
      ]

  -- A `schedule` that succeeds creates and stores as many posts as connections were asked for, and as
  -- many as the plan allows: each is for another one of those that were asked for, so it is one post
  -- for each. Each waits in the workspace, at the time asked for, for an active connection of the
  -- workspace, and has TikTok settings where the connection is one of TikTok. If the workspace
  -- requires approval, the content is approved.
  pub schedule_sound :
      (d : Data T) (now a : ℕ) (within : ℕ → Bool) (fresh : ℕ → ℕ) (input : SchedulePostInput)
      (created : List ScheduledPost)
      → (schedule T d now a within fresh input).1 ≡ ok created
      → (length created ≡ length input.connection_ids)
        × (within (length created) ≡ true)
        × Each (IsGood d a input) created
        × Apart (λ p. p.connection_id) created
        × Each
            (λ p. Posts.find_unique (schedule T d now a within fresh input).0.posts p.id ≡ some p)
            created
        × (content : ContentItem) × (find_content T d a input.content_item_id ≡ some content)
        × ((o : OrgSettings)
            → Orgs.find_unique d.orgs a ≡ some o
            → o.require_approval ≡ true
            → is_approved content.status ≡ true)
  unfolding schedule
  schedule_sound d now a within fresh input created good =
      elim (Result-cases (prepare T d now a within input)) [
        | inl (r, stopped) ↦ ground arith
        | inr ((content, at, targets), ready) ↦
            elim (Option-cases
              (create_posts T (new_posts a content input at fresh 0 targets) d.posts)) [
                | inl failed ↦ ground arith
                | inr (posts, made) ↦
                    let checks = prepare-Prepared d now a within input content at targets ready in
                    let same : new_posts a content input at fresh 0 targets ≡ created =
                      ground arith in
                    let named = found-named d a input.content_item_id content checks.found in
                    let kept : (schedule T d now a within fresh input).0.posts ≡ posts =
                      ground arith in
                    let long = length-new_posts a content input at fresh 0 targets in
                    (
                      ap length (sym same) ∙ long ∙ checks.complete,
                      ap (λ l. within (length l)) (sym same) ∙ ap within long ∙ checks.allowed,
                      subst (Each (IsGood d a input)) same (
                          new_posts-IsGood d a content input at fresh 0 targets named checks.date
                            checks.tiktok
                            (subst
                              (Each (λ c.
                                (target_where T a input.connection_ids c ≡ true)
                                × (Connections.find_unique d.connections c.id ≡ some c)))
                              (sym checks.from)
                              (Connections.find_many-sound (target_where T a input.connection_ids)
                                100 d.connections))),
                      subst (Apart (λ p. p.connection_id)) same (
                          Apart-new_posts a content input at fresh 0 targets (
                            subst (Apart connection_key) (sym checks.from) (
                              Connections.find_many-Apart (target_where T a input.connection_ids)
                                100 d.connections))),
                      subst (λ rows. Each (λ p. Posts.find_unique rows p.id ≡ some p) created)
                          (sym kept)
                          (subst (Each (λ p. Posts.find_unique posts p.id ≡ some p)) same (
                            create_posts-stored a (new_posts a content input at fresh 0 targets)
                              d.posts posts made)),
                      content,
                      checks.found,
                      checks.gate,
                    )
              ]
      ]

  -- From an even index on, variant A is as frequent as B or one ahead; from an odd one, B.
  Balanced-new_posts :
      (a : ℕ) (content : ContentItem) (input : SchedulePostInput) (at : ℕ) (fresh : ℕ → ℕ) (i : ℕ)
      (cs : List SocialConnection)
      → is_some content.ab_variants ≡ true
      → (i % 2 ≡ 0
          → Balanced
              (tally is_variant_a (new_posts a content input at fresh i cs))
              (tally is_variant_b (new_posts a content input at fresh i cs)))
        × (i % 2 ≡ 1
            → Balanced
                (tally is_variant_b (new_posts a content input at fresh i cs))
                (tally is_variant_a (new_posts a content input at fresh i cs)))
  unfolding new_posts new_post
  Balanced-new_posts a content input at fresh i [] ab = (λ even. inl refl, λ odd. inl refl)
  Balanced-new_posts a content input at fresh i (c ∷ cs) ab =
      let (ev, od) = Balanced-new_posts a content input at fresh (suc i) cs ab in
      (λ even. ground (arith, od (omega arith)), λ odd. ground (arith, ev (omega arith)))

  -- Where the content has A/B variants, a `schedule` that succeeds gives variant A to as many posts
  -- as variant B, or to one more.
  pub schedule-Balanced :
      (d : Data T) (now a : ℕ) (within : ℕ → Bool) (fresh : ℕ → ℕ) (input : SchedulePostInput)
      (created : List ScheduledPost) (content : ContentItem)
      → find_content T d a input.content_item_id ≡ some content
      → is_some content.ab_variants ≡ true
      → (schedule T d now a within fresh input).1 ≡ ok created
      → Balanced (tally is_variant_a created) (tally is_variant_b created)
  unfolding schedule
  schedule-Balanced d now a within fresh input created content found ab good =
      elim (Result-cases (prepare T d now a within input)) [
        | inl (r, stopped) ↦ ground arith
        | inr ((c, at, targets), ready) ↦
            elim (Option-cases (create_posts T (new_posts a c input at fresh 0 targets) d.posts)) [
              | inl failed ↦ ground arith
              | inr (posts, made) ↦
                  let checks = prepare-Prepared d now a within input c at targets ready in
                  let same_content : some c ≡ some content = sym checks.found ∙ found in
                  let same : new_posts a c input at fresh 0 targets ≡ created = ground arith in
                  subst (λ ps. Balanced (tally is_variant_a ps) (tally is_variant_b ps)) same
                    ((Balanced-new_posts a c input at fresh 0 targets (ground arith)).0 refl)
            ]
      ]
