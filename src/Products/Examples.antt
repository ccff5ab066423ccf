-- ===== src/Products/Examples.antt =====
-- A concrete shop, on which the theorem about its consent is applied.
use godeye.Prelude.{String, ℕ, ◌≡◌, refl, true, false, Option, none, some, List, [], ◌∷◌, arith, ok}
use godeye.Db.ListTable.{list_table}
use godeye.Requests.Egress.{
  Url, Address, v4_address, no_address, quad, assert_public_url, judge_answers, blocked_address,
  is_blocked_v4, v4_to_int, is_internal_name,
}
use godeye.Products.{
  BusinessProfile, Product, SettingsInput, Tables, Data, profile_key, profile_clash, product_key,
  product_clash, target_of, save_settings, import_now,
}
use godeye.Products.Consent.{Save, agrees, run_saves, import_now-agrees}

profile-covers : (r s : BusinessProfile) → profile_key r ≡ profile_key s → profile_clash r s ≡ true
profile-covers r s h = ground arith

product-covers : (r s : Product) → product_key r ≡ product_key s → product_clash r s ≡ true
product-covers r s h = ground arith

abbrev shop_tables : Tables
shop_tables = record {
  profiles = list_table profile_key profile_clash profile-covers;
  products = list_table product_key product_clash product-covers;
}

abbrev profile : BusinessProfile
profile = record {
  id = 1;
  org_id = 8;
  website = some 70;
  product_import_consent_at = none;
  product_import_consent_by = none;
  product_auto_import = false;
  product_auto_post = false;
  product_post_platforms = [];
}

abbrev shop : Data shop_tables
unfolding list_table
shop = record { profiles = (profile ∷ [], (refl, tt)); products = ([], tt) }

abbrev agreed : SettingsInput
agreed = record {
  import_consent = true;
  auto_import = true;
  auto_post = false;
  post_platforms = [];
}

abbrev saves : List Save
saves =
    record { now = 5; org_id = 8; user_id = 2; input = agreed }
    ∷ record { now = 6; org_id = 9; user_id = 3; input = record agreed { import_consent = false } }
    ∷ []

abbrev home : Url
home = record {
  protocol = "https:";
  has_credentials = false;
  port = none;
  host = "shop.example";
  literal = no_address;
}

abbrev dns : String → Option (List Address)
dns h = some (v4_address (quad 93 184 216 34) ∷ [])

import_now-agrees_example :
    (agrees 8 false saves ≡ true)
    × (◌≡◌ {A = Option ℕ} none none)
    × ((q : BusinessProfile) × (target : ℕ) × (parsed : Url) × (shop_tables.profiles.find_unique
            (run_saves shop_tables shop saves).profiles
            8
          ≡ some q)
        × (target_of none q.website ≡ some target)
        × (assert_public_url dns (some home) ≡ ok parsed))
unfolding list_table run_saves save_settings import_now assert_public_url judge_answers
    blocked_address is_blocked_v4 v4_to_int is_internal_name
import_now-agrees_example =
    import_now-agrees shop_tables saves shop dns (λ u. some home) 8 none (some 44) profile
      (none, 44) refl refl
