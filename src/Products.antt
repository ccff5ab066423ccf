-- ===== src/Products.antt =====
-- apps/api/src/products/products.module.ts: the catalogue that is read from a shop, and the consent to
-- read it. The engine, which reads the shop, is remote. The columns are those that this service writes
-- or tests; URLs, platforms and titles are numbers.
pub mod Consent
mod Examples
use godeye.Prelude.{
  String, ℕ, ◌≡◌, refl, min, Bool, true, false, not, ◌&&◌, Option, none, some, List, [], ◌∷◌, ◌==◌,
  is_some, if◌then◌else◌, get_or, Result, ok, err,
}
use godeye.Db.{Table}
use godeye.Requests.Egress.{Url, Address, assert_public_url}

pub record BusinessProfile : Type 0 where
  pub id : ℕ
  pub org_id : ℕ
  pub website : Option ℕ
  pub product_import_consent_at : Option ℕ
  pub product_import_consent_by : Option ℕ
  pub product_auto_import : Bool
  pub product_auto_post : Bool
  pub product_post_platforms : List ℕ

pub record Product : Type 0 where
  pub id : ℕ
  pub org_id : ℕ
  pub title : ℕ

-- The profile of a workspace is found by its unique column `orgId`, its key here.
abbrev pub profile_key : BusinessProfile → ℕ
profile_key p = p.org_id

abbrev pub profile_clash : BusinessProfile → BusinessProfile → Bool
profile_clash r s = r.org_id == s.org_id

abbrev pub product_key : Product → ℕ
product_key p = p.id

abbrev pub product_clash : Product → Product → Bool
product_clash r s = r.id == s.id

pub record Tables : Type 1 where
  pub profiles : Table BusinessProfile profile_key profile_clash
  pub products : Table Product product_key product_clash

pub record Data (T : Tables) : Type 0 where
  pub profiles : T.profiles.Rows
  pub products : T.products.Rows

pub record SettingsInput : Type 0 where
  pub import_consent : Bool
  pub auto_import : Bool
  pub auto_post : Bool
  pub post_platforms : List ℕ

pub data ProductRefusal : Type 0 where
  no_profile no_consent no_website url_not_allowed enqueue_failed product_not_found : ProductRefusal

-- The date of a consent that stands is kept.
abbrev pub consent_at : ℕ → SettingsInput → Option ℕ → Option ℕ
consent_at now input old = if input.import_consent then some (get_or old now) else none

abbrev pub with_settings : ℕ → ℕ → SettingsInput → BusinessProfile → BusinessProfile
with_settings now user_id input p = record p {
  product_import_consent_at = consent_at now input p.product_import_consent_at;
  product_import_consent_by = if input.import_consent then some user_id else none;
  product_auto_import = input.auto_import;
  product_auto_post = input.auto_post;
  product_post_platforms = input.post_platforms;
}

-- What getSettings shows.
pub record Settings : Type 0 where
  pub website : Option ℕ
  pub import_consent_at : Option ℕ
  pub auto_import : Bool
  pub auto_post : Bool
  pub post_platforms : List ℕ
  pub product_count : ℕ

abbrev pub target_of : Option ℕ → Option ℕ → Option ℕ
target_of none website = website
target_of (some url) website = some url

module _ (T : Tables) where
  open T use {profiles as Profiles, products as Products}

  unfoldable pub get_settings : Data T → ℕ → Settings
  get_settings d org_id =
      let count = Products.count (λ p. p.org_id == org_id) d.products in
      elim (Profiles.find_unique d.profiles org_id) [
        | none ↦ record {
          website = none;
          import_consent_at = none;
          auto_import = false;
          auto_post = false;
          post_platforms = [];
          product_count = count;
        }
        | some p ↦ record {
          website = p.website;
          import_consent_at = p.product_import_consent_at;
          auto_import = p.product_auto_import;
          auto_post = p.product_auto_post;
          post_platforms = p.product_post_platforms;
          product_count = count;
        }
      ]

  unfoldable pub save_settings :
      Data T → ℕ → ℕ → ℕ → SettingsInput → Data T × Result ProductRefusal (Unit {0})
  save_settings d now org_id user_id input = elim (Profiles.find_unique d.profiles org_id) [
    | none ↦ (d, err no_profile)
    | some profile ↦ (
      record d {
        profiles =
            Profiles.update_many (λ p. p.org_id == org_id) (with_settings now user_id input)
              (λ p. refl) d.profiles;
      },
      ok tt,
    )
  ]

  -- `enqueued` is the task of the engine, `none` where it cannot be reached. The result has the URL
  -- that the engine gets, which reads the website where there is none.
  unfoldable pub import_now :
      Data T
      → (lookup : String → Option (List Address)) → (parse : ℕ → Option Url) → ℕ
      → Option ℕ
      → (enqueued : Option ℕ) → Result ProductRefusal (Option ℕ × ℕ)
  import_now d lookup parse org_id url enqueued = elim (Profiles.find_unique d.profiles org_id) [
    | none ↦ err no_consent
    | some profile ↦
        if not (is_some profile.product_import_consent_at)
        then err no_consent
        else elim (target_of url profile.website) [
          | none ↦ err no_website
          | some target ↦ elim (assert_public_url lookup (parse target)) [
            | err e ↦ err url_not_allowed
            | ok parsed ↦ elim enqueued [
              | none ↦ err enqueue_failed
              | some task_id ↦ ok (url, task_id)
            ]
          ]
        ]
  ]

  -- One product, or the whole catalogue.
  unfoldable pub remove : Data T → ℕ → Option ℕ → Data T × Result ProductRefusal ℕ
  remove d org_id (some id) =
      elim (Products.find_first (λ p. p.id == id && p.org_id == org_id) d.products) [
        | none ↦ (d, err product_not_found)
        | some product ↦ (
          record d {
            products = Products.delete_many (λ p. p.id == id && p.org_id == org_id) d.products;
          },
          ok 1,
        )
      ]
  remove d org_id none = (
    record d { products = Products.delete_many (λ p. p.org_id == org_id) d.products },
    ok (Products.count (λ p. p.org_id == org_id) d.products),
  )

  unfoldable pub list_products : Data T → ℕ → (limit : ℕ) → List Product
  list_products d org_id limit =
      Products.find_many (λ p. p.org_id == org_id) (min limit 500) d.products
