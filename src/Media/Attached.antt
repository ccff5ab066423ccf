-- ===== src/Media/Attached.antt =====
-- A file is attached to content of its own workspace only.
use godeye.Prelude.{
  String, ℕ, ◌≡◌, refl, sym, ap, ◌∙◌, true, ◌&&◌, Option, none, some, List, [], ◌∷◌, arith, ◌==◌,
  Option-cases, Bool-cases, inl, inr,
}
use mathlib.Core.Path.{subst}
use godeye.Publishing.Model.{ContentItem}
use godeye.Media.{
  MediaAsset, Stored, Tables, Data, new_asset, with_content, content_known, upload_photo, attach,
  remove,
}

-- The calls that write files, each with the workspace that makes it.
pub data MediaCall : Type 0 where
  uploads :
      (org_id : ℕ)
      → (content_item_id : Option ℕ) → (content_type : String) → Option Stored
      → (id : ℕ) → MediaCall
  attaches : (org_id media_id content_item_id : ℕ) → MediaCall
  removes : (org_id media_id : ℕ) → MediaCall

module _ (T : Tables) where
  open T use {contents as Contents, assets as Assets}

  unfoldable pub step_media : Data T → MediaCall → Data T
  unfolding upload_photo attach remove
  step_media d (uploads org_id content_item_id content_type stored id) =
      (upload_photo T d org_id content_item_id content_type stored id).0
  step_media d (attaches org_id media_id content_item_id) =
      (attach T d org_id media_id content_item_id).0
  step_media d (removes org_id media_id) = (remove T d org_id media_id).0

  unfoldable pub run_media : Data T → List MediaCall → Data T
  unfolding step_media
  run_media d [] = d
  run_media d (c ∷ calls) = run_media (step_media d c) calls

  -- The content that a file is attached to is of the workspace of the file.
  unfoldable pub IsOwn : Contents.Rows → MediaAsset → Type 0
  IsOwn rows a =
      (c : ℕ)
      → a.content_item_id ≡ some c
      → (item : ContentItem) × (Contents.find_unique rows c ≡ some item) × (item.org_id ≡ a.org_id)

  unfoldable pub IsAttached : Data T → Type 0
  unfolding IsOwn
  IsAttached d =
      (k : ℕ) (a : MediaAsset) → Assets.find_unique d.assets k ≡ some a → IsOwn d.contents a

  -- A content item that passed the check.
  content_known_lem :
      (d : Data T) (org_id : ℕ) (content_item_id : Option ℕ)
      → content_known T d org_id content_item_id ≡ true
      → (c : ℕ) → content_item_id ≡ some c
      → (item : ContentItem) × (Contents.find_unique d.contents c ≡ some item)
        × (item.org_id ≡ org_id)
  unfolding content_known
  content_known_lem d org_id none known c is = ground arith
  content_known_lem d org_id (some id) known c is =
      elim (Option-cases (Contents.find_first (λ c. c.id == id && c.org_id == org_id) d.contents)) [
        | inl missing ↦ ground arith
        | inr (item, found) ↦
            let (passes, at) =
              Contents.find_first-sound (λ c. c.id == id && c.org_id == org_id) d.contents item
                found in
            (
              item,
              ap (Contents.find_unique d.contents) (let e : c ≡ item.id = ground arith in e) ∙ at,
              ground arith,
            )
      ]

  step_media-contents : (c : MediaCall) (d : Data T) → (step_media d c).contents ≡ d.contents
  unfolding step_media upload_photo attach remove
  step_media-contents (uploads org_id content_item_id content_type stored id) d = ground arith
  step_media-contents (attaches org_id media_id content_item_id) d = ground arith
  step_media-contents (removes org_id media_id) d = ground arith

  attached-IsOwn :
      (d : Data T) (org_id media_id content_item_id : ℕ)
      → IsAttached d
      → (k : ℕ) (a : MediaAsset)
      → Assets.find_unique (attach T d org_id media_id content_item_id).0.assets k ≡ some a
      → IsOwn d.contents a
  unfolding attach IsAttached IsOwn
  attached-IsOwn d org_id media_id content_item_id inv k a at =
      elim (Option-cases
        (Assets.find_first (λ a. a.id == media_id && a.org_id == org_id) d.assets)) [
          | inl missing ↦ inv k a (ground arith)
          | inr (media, found) ↦
              elim (Bool-cases (content_known T d org_id (some content_item_id))) [
                | inr unknown ↦ inv k a (ground arith)
                | inl known ↦
                    let after =
                      Assets.find_unique-update_many (λ a. a.id == media_id)
                        (with_content content_item_id) (λ a. refl) d.assets k in
                    elim (Option-cases (Assets.find_unique d.assets k)) [
                      | inl none_there ↦ ground arith
                      | inr (r, was) ↦ elim (Bool-cases (r.id == media_id)) [
                        | inr other ↦ inv k a (ground arith)
                        | inl this ↦
                            let (passes, mine) =
                              Assets.find_first-sound (λ a. a.id == media_id && a.org_id == org_id)
                                d.assets media found in
                            let key = Assets.find_unique-key d.assets k r was in
                            let same : k ≡ media.id = ground arith in
                            let here = ap (Assets.find_unique d.assets) same ∙ mine in
                            let own : a ≡ with_content content_item_id media = ground arith in
                            λ c is.
                              let (item, there, of) =
                                content_known_lem d org_id (some content_item_id) known c
                                  (ground arith) in
                              (item, there, ground arith)
                      ]
                    ]
              ]
        ]

  uploaded-IsOwn :
      (d : Data T) (org_id : ℕ) (content_item_id : Option ℕ) (content_type : String)
      (stored : Option Stored) (id : ℕ)
      → IsAttached d
      → (k : ℕ) (a : MediaAsset)
      → Assets.find_unique
          (upload_photo T d org_id content_item_id content_type stored id).0.assets
          k
        ≡ some a
      → IsOwn d.contents a
  unfolding upload_photo IsAttached IsOwn
  uploaded-IsOwn d org_id content_item_id content_type stored id inv k a at =
      elim (Bool-cases (content_known T d org_id content_item_id)) [
        | inr unknown ↦ inv k a (ground arith)
        | inl known ↦ elim (Option-cases stored) [
          | inl lost ↦ inv k a (ground arith)
          | inr (file, kept) ↦
              let asset = new_asset id org_id content_item_id content_type file in
              elim (Option-cases (Assets.create asset d.assets)) [
                | inl clash ↦ inv k a (ground arith)
                | inr (rows, made) ↦
                    let after = Assets.find_unique-create asset d.assets rows k made in
                    elim (Bool-cases (id == k)) [
                      | inr other ↦ inv k a (ground arith)
                      | inl this ↦ λ c is.
                          let new : a ≡ asset = ground arith in
                          let (item, there, of) =
                            content_known_lem d org_id content_item_id known c (ground arith) in
                          (item, there, ground arith)
                    ]
              ]
        ]
      ]

  left-IsOwn :
      (d : Data T) (org_id media_id : ℕ)
      → IsAttached d
      → (k : ℕ) (a : MediaAsset)
      → Assets.find_unique (remove T d org_id media_id).0.assets k ≡ some a
      → IsOwn d.contents a
  unfolding remove IsAttached
  left-IsOwn d org_id media_id inv k a at =
      let p = λ (a : MediaAsset). a.id == media_id && a.org_id == org_id in
      elim (Option-cases (Assets.find_first p d.assets)) [
        | inl missing ↦ inv k a (ground arith)
        | inr (media, found) ↦ elim (Option-cases (Assets.find_unique d.assets k)) [
          | inl none_there ↦ ground (arith, Assets.delete_many-none p d.assets k none_there)
          | inr (r, was) ↦
              inv k a (ground (arith, Assets.find_unique-delete_many p d.assets k r was))
        ]
      ]

  step_media-IsOwn :
      (c : MediaCall) (d : Data T)
      → IsAttached d
      → (k : ℕ) (a : MediaAsset) → Assets.find_unique (step_media d c).assets k ≡ some a
      → IsOwn d.contents a
  unfolding step_media
  step_media-IsOwn (uploads org_id content_item_id content_type stored id) d inv =
      uploaded-IsOwn d org_id content_item_id content_type stored id inv
  step_media-IsOwn (attaches org_id media_id content_item_id) d inv =
      attached-IsOwn d org_id media_id content_item_id inv
  step_media-IsOwn (removes org_id media_id) d inv = left-IsOwn d org_id media_id inv

  step_media-IsAttached : (c : MediaCall) (d : Data T) → IsAttached d → IsAttached (step_media d c)
  unfolding IsAttached
  step_media-IsAttached c d inv k a at =
      subst (λ rows. IsOwn rows a) (sym (step_media-contents c d)) (step_media-IsOwn c d inv k a at)

  -- Every file is attached to content of its own workspace, if to any: it is so after whatever uploads,
  -- attachments and removals the workspaces ask for, where it was so before.
  pub run_media-IsAttached :
      (calls : List MediaCall) (d : Data T) → IsAttached d → IsAttached (run_media d calls)
  unfolding run_media
  run_media-IsAttached [] d inv = inv
  run_media-IsAttached (c ∷ calls) d inv =
      run_media-IsAttached calls (step_media d c) (step_media-IsAttached c d inv)
