-- ===== src/Media/Isolated.antt =====
-- No workspace touches the files of another.
use godeye.Prelude.{
  ℕ, ◌≡◌, refl, ap, ◌∙◌, Bool, true, false, not, ◌&&◌, some, List, [], ◌∷◌, arith, ◌==◌,
  Option-cases, Bool-cases, inl, inr,
}
use godeye.Media.{
  MediaAsset, Tables, Data, new_asset, with_content, content_known, upload_photo, attach, remove,
}
use godeye.Media.Attached.{MediaCall, uploads, attaches, removes, step_media, run_media}

abbrev pub caller : MediaCall → ℕ
caller (uploads org_id content_item_id content_type stored id) = org_id
caller (attaches org_id media_id content_item_id) = org_id
caller (removes org_id media_id) = org_id

module _ (T : Tables) where
  open T use {assets as Assets}

  step_media-kept :
      (c : MediaCall) (d : Data T) (k : ℕ) (a : MediaAsset)
      → Assets.find_unique d.assets k ≡ some a
      → (caller c == a.org_id) ≡ false
      → Assets.find_unique (step_media T d c).assets k ≡ some a
  unfolding step_media upload_photo attach remove
  step_media-kept (uploads org_id content_item_id content_type stored id) d k a at other =
      elim (Bool-cases (content_known T d org_id content_item_id)) [
        | inr unknown ↦ ground arith
        | inl known ↦ elim (Option-cases stored) [
          | inl lost ↦ ground arith
          | inr (file, kept) ↦
              let asset = new_asset id org_id content_item_id content_type file in
              elim (Option-cases (Assets.create asset d.assets)) [
                | inl clash ↦ ground arith
                | inr (rows, made) ↦
                    let key = Assets.find_unique-key d.assets k a at in
                    let after = Assets.find_unique-create asset d.assets rows k made in
                    elim (Bool-cases (id == k)) [
                      | inr new ↦ ground arith
                      | inl taken ↦
                          let clash = Assets.create-clash asset d.assets k a at (ground arith) in
                          ground arith
                    ]
              ]
        ]
      ]
  step_media-kept (attaches org_id media_id content_item_id) d k a at other =
      elim (Option-cases
        (Assets.find_first (λ a. a.id == media_id && a.org_id == org_id) d.assets)) [
          | inl missing ↦ ground arith
          | inr (media, found) ↦
              let (passes, mine) =
                Assets.find_first-sound (λ a. a.id == media_id && a.org_id == org_id) d.assets media
                  found in
              let after =
                Assets.find_unique-update_many (λ a. a.id == media_id)
                  (with_content content_item_id) (λ a. refl) d.assets k in
              let key = Assets.find_unique-key d.assets k a at in
              elim (Bool-cases (k == media_id)) [
                | inr apart ↦ elim (Bool-cases (content_known T d org_id (some content_item_id))) [
                  | inl known ↦ ground arith
                  | inr unknown ↦ ground arith
                ]
                | inl this ↦
                    let same : k ≡ media.id = ground arith in
                    let here = ap (Assets.find_unique d.assets) same ∙ mine in ground arith
              ]
        ]
  step_media-kept (removes org_id media_id) d k a at other =
      let p = λ (a : MediaAsset). a.id == media_id && a.org_id == org_id in
      elim (Option-cases (Assets.find_first p d.assets)) [
        | inl missing ↦ ground arith
        | inr (media, found) ↦ ground (arith, Assets.find_unique-delete_many p d.assets k a at)
      ]

  abbrev pub all_others : ℕ → List MediaCall → Bool
  all_others org_id [] = true
  all_others org_id (c ∷ calls) = not (caller c == org_id) && all_others org_id calls

  -- Calls of other workspaces, in whatever order, leave a file as it is, in every column.
  pub run_media_isolated :
      (calls : List MediaCall) (d : Data T) (k : ℕ) (a : MediaAsset)
      → Assets.find_unique d.assets k ≡ some a
      → all_others a.org_id calls ≡ true
      → Assets.find_unique (run_media T d calls).assets k ≡ some a
  unfolding run_media
  run_media_isolated [] d k a at others = at
  run_media_isolated (c ∷ calls) d k a at others =
      run_media_isolated calls (step_media T d c) k a (step_media-kept c d k a at (ground arith))
        (ground arith)
