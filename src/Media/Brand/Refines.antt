-- ===== src/Media/Brand/Refines.antt =====
-- The rows keep what the workspaces are promised of their brand kits.
use godeye.Prelude.{
  take, ℕ, ◌≡◌, refl, sym, ap, ◌∙◌, false, none, some, List, [], ◌∷◌, arith, ◌==◌, get_or,
  if◌then◌else◌, Result, ok, err, Option-cases, Bool-cases, inl, inr,
}
use mathlib.Core.Option
use mathlib.Core.Path.{subst₂}
use godeye.Db.{patch}
use godeye.Media.{
  BrandKit, kit_clash, Tables, Data, MediaRefusal, engine_failed, bad_logo_type, bad_music_type,
}
use godeye.Media.Brand.{
  KitView, default_kit, blank_kit, shown, chosen_font, with_input, with_logo, with_music,
  without_music, is_logo_type, is_music_type, get_brand_kit, upsert_kit, upsert_brand_kit,
  upload_logo, upload_brand_music, remove_brand_music,
}
use godeye.Media.Brand.Promise.{
  KitCall, saves, uploads_logo, uploads_music, removes_music, KitAnswer, kit_saved, logo_stored,
  music_stored, music_removed, refused, Kits, put_kit, promised, promised_all,
}

abbrev answer_of {ℓ} : {A : Type ℓ} → (A → KitAnswer) → Result MediaRefusal A → KitAnswer
answer_of f (ok a) = f a
answer_of f (err e) = refused e

module _ (T : Tables) where
  open T use {kits as Rows}

  unfoldable pub step_kit : Data T → KitCall → Data T × KitAnswer
  unfolding upsert_brand_kit upload_logo upload_brand_music remove_brand_music
  step_kit d (saves org_id input) =
      let (d', r) = upsert_brand_kit T d org_id input in (d', answer_of kit_saved r)
  step_kit d (uploads_logo org_id content_type stored) =
      let (d', r) = upload_logo T d org_id content_type stored in (d', answer_of logo_stored r)
  step_kit d (uploads_music org_id content_type filename stored) =
      let (d', r) = upload_brand_music T d org_id content_type filename stored in
      (d', answer_of (λ m. music_stored m.0 m.1) r)
  step_kit d (removes_music org_id) = (remove_brand_music T d org_id, music_removed)

  unfoldable pub run_kit : Data T → List KitCall → Data T × List KitAnswer
  unfolding step_kit
  run_kit d [] = (d, [])
  run_kit d (c ∷ calls) =
      let (d1, answer) = step_kit d c in
      let (d2, answers) = run_kit d1 calls in (d2, answer ∷ answers)

  unlike_all :
      (d : Data T) (org_id : ℕ) (b : BrandKit)
      → b.org_id ≡ org_id
      → Rows.find_unique d.kits org_id ≡ none
      → (k : ℕ) (s : BrandKit) → Rows.find_unique d.kits k ≡ some s
      → kit_clash b s ≡ false
  unlike_all d org_id b of missing k s at = elim (Bool-cases (b.org_id == s.org_id)) [
    | inl same ↦
        let key = Rows.find_unique-key d.kits k s at in
        let here : Rows.find_unique d.kits k ≡ none =
          ap (Rows.find_unique d.kits) (let e : k ≡ org_id = ground arith in e) ∙ missing in
        ground arith
    | inr other ↦ other
  ]

  own_patch :
      (d : Data T) (org_id : ℕ) (f : BrandKit → BrandKit) (kit : BrandKit)
      → Rows.find_unique d.kits org_id ≡ some kit
      → (k : ℕ)
      → Option.map (patch (λ k. k.org_id == org_id) f) (Rows.find_unique d.kits k) ≡ (
          if org_id == k
          then some (f (get_or (Rows.find_unique d.kits org_id) (blank_kit org_id)))
          else Rows.find_unique d.kits k)
  own_patch d org_id f kit found k = elim (Option-cases (Rows.find_unique d.kits k)) [
    | inl missing ↦ elim (Bool-cases (org_id == k)) [
      | inl own ↦
          let here =
            ap (Rows.find_unique d.kits) (let e : k ≡ org_id = ground arith in e) ∙ found in
          ground arith
      | inr other ↦ ground arith
    ]
    | inr (r, at) ↦
        let key = Rows.find_unique-key d.kits k r at in
        elim (Bool-cases (org_id == k)) [
          | inl own ↦
              let here =
                ap (Rows.find_unique d.kits) (let e : k ≡ org_id = ground arith in e) ∙ found in
              ground arith
          | inr other ↦ ground arith
        ]
  ]

  -- A write is never refused by the unique index, and sets the columns of that workspace alone.
  upsert_kit_lem :
      (d : Data T) (org_id : ℕ) (f : BrandKit → BrandKit)
      (keeps : (k : BrandKit) → (f k).org_id ≡ k.org_id)
      → (d' : Data T) × (upsert_kit T d org_id f keeps ≡ some d')
        × ((k : ℕ)
            → Rows.find_unique d'.kits k ≡ (
                if org_id == k
                then some (f (get_or (Rows.find_unique d.kits org_id) (blank_kit org_id)))
                else Rows.find_unique d.kits k))
  unfolding upsert_kit blank_kit
  upsert_kit_lem d org_id f keeps = elim (Option-cases (Rows.find_unique d.kits org_id)) [
    | inl missing ↦
        let b = f (blank_kit org_id) in
        let of : b.org_id ≡ org_id = keeps (blank_kit org_id) in
        let (rows, made) = Rows.create-new b d.kits (unlike_all d org_id b of missing) in
        (
          record d { kits = rows },
          ground arith,
          λ k. Rows.find_unique-create b d.kits rows k made ∙ ground arith,
        )
    | inr (kit, found) ↦ (
      record d { kits = Rows.update_many (λ k. k.org_id == org_id) f keeps d.kits },
      ground arith,
      λ k.
          Rows.find_unique-update_many (λ k. k.org_id == org_id) f keeps d.kits k
          ∙ own_patch d org_id f kit found k,
    )
  ]

  Shows : Data T → Kits → Type 0
  Shows d s = (k : ℕ) → get_brand_kit T d k ≡ s k

  -- A workspace without a row shows what a row of the database's defaults would.
  get_brand_kit-shown :
      (d : Data T) (k : ℕ)
      → get_brand_kit T d k ≡ shown (get_or (Rows.find_unique d.kits k) (blank_kit k))
  unfolding get_brand_kit shown blank_kit default_kit
  get_brand_kit-shown d k = elim (Option-cases (Rows.find_unique d.kits k)) [
    | inl missing ↦ ground arith
    | inr (r, at) ↦ ground arith
  ]

  upsert_kit-Shows :
      (d : Data T) (s : Kits) (org_id : ℕ) (f : BrandKit → BrandKit)
      (keeps : (k : BrandKit) → (f k).org_id ≡ k.org_id) (g : KitView → KitView)
      → ((k : BrandKit) → shown (f k) ≡ g (shown k))
      → Shows d s
      → (d' : Data T) × (upsert_kit T d org_id f keeps ≡ some d')
        × Shows d' (put_kit s org_id (g (s org_id)))
  unfolding Shows
  upsert_kit-Shows d s org_id f keeps g match shows =
      let (d', made, sees) = upsert_kit_lem d org_id f keeps in
      let row = get_or (Rows.find_unique d.kits org_id) (blank_kit org_id) in
      let now : shown (f row) ≡ g (s org_id) =
        match row ∙ ap g (sym (get_brand_kit-shown d org_id) ∙ shows org_id) in
      (
        d',
        made,
        λ k. get_brand_kit-shown d' k ∙ elim (Bool-cases (org_id == k)) [
          | inl own ↦ ground (arith, sees k)
          | inr other ↦ ground (arith, sees k, get_brand_kit-shown d k, shows k)
        ],
      )

  removed-Shows :
      (d : Data T) (s : Kits) (org_id : ℕ)
      → Shows d s
      → Shows
          (remove_brand_music T d org_id)
          (put_kit s org_id (record (s org_id) { music_url = none; music_name = none }))
  unfolding Shows remove_brand_music get_brand_kit shown default_kit without_music
  removed-Shows d s org_id shows k =
      let before = shows k in
      let after =
        Rows.find_unique-update_many (λ k. k.org_id == org_id) without_music (λ k. refl) d.kits k in
      elim (Bool-cases (org_id == k)) [
        | inl own ↦
            let here : s org_id ≡ s k = ap s (ground arith) in
            elim (Option-cases (Rows.find_unique d.kits k)) [
              | inl missing ↦ ground arith
              | inr (r, at) ↦ let key = Rows.find_unique-key d.kits k r at in ground arith
            ]
        | inr other ↦ elim (Option-cases (Rows.find_unique d.kits k)) [
          | inl missing ↦ ground arith
          | inr (r, at) ↦ let key = Rows.find_unique-key d.kits k r at in ground arith
        ]
      ]

  Agrees : Data T × KitAnswer → Kits × KitAnswer → Type 0
  Agrees m w = Shows m.0 w.0 × (m.1 ≡ w.1)

  -- Both sides are known up to an equation.
  agree_at :
      (m m' : Data T × KitAnswer) (w w' : Kits × KitAnswer)
      → m ≡ m'
      → w ≡ w'
      → Agrees m' w'
      → Agrees m w
  agree_at m m' w w' e f agrees = subst₂ Agrees (sym e) (sym f) agrees

  step_kit-Agrees :
      (c : KitCall) (d : Data T) (s : Kits) → Shows d s → Agrees (step_kit d c) (promised s c)
  unfolding Agrees Shows step_kit promised shown with_input with_logo with_music upsert_brand_kit
      upload_logo upload_brand_music remove_brand_music
  step_kit-Agrees (saves org_id input) d s shows =
      let (d', made, after) =
        upsert_kit-Shows d s org_id (with_input input) (λ k. refl)
          (λ v. record v {
            primary_color = input.primary_color;
            secondary_color = input.secondary_color;
            font_family = chosen_font input.font_family;
            watermark_enabled = input.watermark_enabled;
          })
          (λ k. refl) shows in
      agree_at _ (d', kit_saved (get_brand_kit T d' org_id)) _ _ (ground arith) refl
        (after, ground (arith, after org_id))
  step_kit-Agrees (uploads_logo org_id content_type stored) d s shows =
      elim (Bool-cases (is_logo_type content_type)) [
        | inl good ↦ elim (Option-cases stored) [
          | inl lost ↦
              agree_at _ (d, refused engine_failed) _ (s, refused engine_failed) (ground arith)
                (ground arith) (shows, refl)
          | inr ((key, url), kept) ↦
              let (d', made, after) =
                upsert_kit-Shows d s org_id (with_logo key url) (λ k. refl)
                  (λ v. record v { logo_url = some url }) (λ k. refl) shows in
              agree_at _ (d', logo_stored url) _
                (put_kit s org_id (record (s org_id) { logo_url = some url }), logo_stored url)
                (ground arith) (ground arith) (after, refl)
        ]
        | inr bad ↦
            agree_at _ (d, refused bad_logo_type) _ (s, refused bad_logo_type) (ground arith)
              (ground arith) (shows, refl)
      ]
  step_kit-Agrees (uploads_music org_id content_type filename stored) d s shows =
      elim (Bool-cases (is_music_type content_type)) [
        | inl good ↦ elim (Option-cases stored) [
          | inl lost ↦
              agree_at _ (d, refused engine_failed) _ (s, refused engine_failed) (ground arith)
                (ground arith) (shows, refl)
          | inr ((key, url), kept) ↦
              let name = take 200 filename in
              let (d', made, after) =
                upsert_kit-Shows d s org_id (with_music key url name) (λ k. refl)
                  (λ v. record v { music_url = some url; music_name = some name }) (λ k. refl)
                  shows in
              agree_at _ (d', music_stored url name) _
                (
                  put_kit s org_id
                      (record (s org_id) { music_url = some url; music_name = some name }),
                  music_stored url name,
                )
                (ground arith) (ground arith) (after, refl)
        ]
        | inr bad ↦
            agree_at _ (d, refused bad_music_type) _ (s, refused bad_music_type) (ground arith)
              (ground arith) (shows, refl)
      ]
  step_kit-Agrees (removes_music org_id) d s shows = (removed-Shows d s org_id shows, refl)

  run_kit-Shows :
      (calls : List KitCall) (d : Data T) (s : Kits)
      → Shows d s
      → Shows (run_kit d calls).0 (promised_all s calls).0
        × ((run_kit d calls).1 ≡ (promised_all s calls).1)
  unfolding Agrees run_kit promised_all
  run_kit-Shows [] d s shows = (shows, refl)
  run_kit-Shows (c ∷ calls) d s shows =
      let (next, answers) = step_kit-Agrees c d s shows in
      let (last, rest) = run_kit-Shows calls (step_kit d c).0 (promised s c).0 next in
      (last, ground arith)

  -- The kits are what the workspaces are promised. After whatever calls by whatever workspaces, each
  -- is shown its kit from before with the columns that its own calls set, and each call was answered
  -- as promised: no upload of a supported type that the engine stores is refused, a save shows its
  -- result, and it makes no difference whether a workspace had a row.
  pub get_brand_kit-run_kit :
      (calls : List KitCall) (d : Data T)
      → ((k : ℕ)
          → get_brand_kit T (run_kit d calls).0 k ≡ (promised_all (get_brand_kit T d) calls).0 k)
        × ((run_kit d calls).1 ≡ (promised_all (get_brand_kit T d) calls).1)
  unfolding Shows
  get_brand_kit-run_kit calls d = run_kit-Shows calls d (get_brand_kit T d) (λ k. refl)
