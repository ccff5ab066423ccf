-- ===== src/Products/Consent.antt =====
-- A shop is read only while its workspace agrees to it.
use godeye.Prelude.{
  Option, String, ℕ, ◌≡◌, refl, sym, ap, ◌∙◌, Bool, true, false, none, some, List, [], ◌∷◌, arith,
  ◌==◌, is_some, if◌then◌else◌, ok, Option-cases, Bool-cases, Result-cases, inl, inr,
}
use godeye.Requests.Egress.{Url, Address, assert_public_url}
use godeye.Products.{
  BusinessProfile, SettingsInput, Tables, Data, with_settings, target_of, save_settings, import_now,
}

-- A call that saves the settings of a workspace.
pub record Save : Type 0 where
  pub now : ℕ
  pub org_id : ℕ
  pub user_id : ℕ
  pub input : SettingsInput

-- What the last save of a workspace said, or else what stood before.
abbrev pub agrees : ℕ → Bool → List Save → Bool
agrees org_id before [] = before
agrees org_id before (s ∷ saves) =
    agrees org_id (if s.org_id == org_id then s.input.import_consent else before) saves

module _ (T : Tables) where
  open T use {profiles as Profiles}

  unfoldable pub run_saves : Data T → List Save → Data T
  unfolding save_settings
  run_saves d [] = d
  run_saves d (s ∷ saves) = run_saves (save_settings T d s.now s.org_id s.user_id s.input).0 saves

  abbrev pub has_consent : Data T → ℕ → Bool
  has_consent d org_id = elim (Profiles.find_unique d.profiles org_id) [
    | none ↦ false
    | some p ↦ is_some p.product_import_consent_at
  ]

  -- The profile of a workspace stays, and its consent is what the save said.
  save-consent :
      (d : Data T) (s : Save) (org_id : ℕ) (p : BusinessProfile)
      → Profiles.find_unique d.profiles org_id ≡ some p
      → (q : BusinessProfile) × (Profiles.find_unique
            (save_settings T d s.now s.org_id s.user_id s.input).0.profiles
            org_id
          ≡ some q)
        × (is_some q.product_import_consent_at ≡ (
            if s.org_id == org_id
            then s.input.import_consent
            else is_some p.product_import_consent_at))
  unfolding save_settings
  save-consent d s org_id p at =
      let set = with_settings s.now s.user_id s.input in
      let after =
        Profiles.find_unique-update_many (λ p. p.org_id == s.org_id) set (λ p. refl) d.profiles
          org_id in
      let key = Profiles.find_unique-key d.profiles org_id p at in
      elim (Bool-cases (s.org_id == org_id)) [
        | inl own ↦
            let here : Profiles.find_unique d.profiles s.org_id ≡ some p =
              ap (Profiles.find_unique d.profiles) (let e : s.org_id ≡ org_id = ground arith in e)
              ∙ at in
            (set p, ground arith, ground arith)
        | inr other ↦ elim (Option-cases (Profiles.find_unique d.profiles s.org_id)) [
          | inl missing ↦ (p, ground arith, ground arith)
          | inr (r, found) ↦ (p, ground arith, ground arith)
        ]
      ]

  run_saves-consent :
      (saves : List Save) (d : Data T) (org_id : ℕ) (p : BusinessProfile)
      → Profiles.find_unique d.profiles org_id ≡ some p
      → has_consent (run_saves d saves) org_id
        ≡ agrees org_id (is_some p.product_import_consent_at) saves
  unfolding run_saves
  run_saves-consent [] d org_id p at = ground arith
  run_saves-consent (s ∷ saves) d org_id p at =
      let (q, stays, says) = save-consent d s org_id p at in
      run_saves-consent saves (save_settings T d s.now s.org_id s.user_id s.input).0 org_id q stays
      ∙ ap (λ b. agrees org_id b saves) says

  -- An import that is handed to the engine, after whatever saves of settings by whatever workspaces, is
  -- of a workspace whose last word on it was to agree, and of a public URL: the one that was asked
  -- for, or else the website of the workspace.
  pub import_now-agrees :
      (saves : List Save) (d : Data T) (lookup : String → Option (List Address))
      (parse : ℕ → Option Url) (org_id : ℕ) (url : Option ℕ) (enqueued : Option ℕ)
      (p : BusinessProfile) (sent : Option ℕ × ℕ)
      → Profiles.find_unique d.profiles org_id ≡ some p
      → import_now T (run_saves d saves) lookup parse org_id url enqueued ≡ ok sent
      → (agrees org_id (is_some p.product_import_consent_at) saves ≡ true)
        × (sent.0 ≡ url)
        × ((q : BusinessProfile) × (target : ℕ) × (parsed : Url) × (Profiles.find_unique
                (run_saves d saves).profiles
                org_id
              ≡ some q)
            × (target_of url q.website ≡ some target)
            × (assert_public_url lookup (parse target) ≡ ok parsed))
  unfolding import_now
  import_now-agrees saves d lookup parse org_id url enqueued p sent at e =
      let d' = run_saves d saves in
      let consent = run_saves-consent saves d org_id p at in
      elim (Option-cases (Profiles.find_unique d'.profiles org_id)) [
        | inl missing ↦ ground arith
        | inr (q, here) ↦ elim (Option-cases q.product_import_consent_at) [
          | inl refused ↦ ground arith
          | inr (since, agreed) ↦ elim (Option-cases (target_of url q.website)) [
            | inl no_target ↦ ground arith
            | inr (target, is) ↦ elim (Result-cases (assert_public_url lookup (parse target))) [
              | inl (bad, not_public) ↦ ground arith
              | inr (parsed, public) ↦ elim (Option-cases enqueued) [
                | inl lost ↦ ground arith
                | inr (task, queued) ↦ (
                  sym consent ∙ ground arith,
                  ground arith,
                  (q, target, parsed, here, is, public),
                )
              ]
            ]
          ]
        ]
      ]
