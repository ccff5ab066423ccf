-- ===== src/Media/Brand.antt =====
-- apps/api/src/media/media.service.ts: the brand kit of a workspace. The defaults of a new row are those
-- of packages/db/prisma/schema.prisma.
pub mod Promise
pub mod Refines
use text.Mathlib.Text.{◌==◌ as str_eq}
use godeye.Prelude.{
  String, Text, take, ℕ, ◌≡◌, refl, Bool, false, ◌||◌, Option, none, some, [], ◌∷◌, ◌==◌, get_or,
  if◌then◌else◌, Result, ok, err,
}
use mathlib.Core.Option
use godeye.Media.{
  BrandKit, Tables, Data, MediaRefusal, engine_failed, write_failed, bad_logo_type, bad_music_type,
}

-- What getBrandKit shows.
pub record KitView : Type 0 where
  pub primary_color : String
  pub secondary_color : String
  pub logo_url : Option ℕ
  pub font_family : Option Text
  pub watermark_enabled : Bool
  pub music_url : Option ℕ
  pub music_name : Option Text

pub record KitInput : Type 0 where
  pub primary_color : String
  pub secondary_color : String
  pub font_family : Option Text
  pub watermark_enabled : Bool

-- The kit of a workspace that has no row.
unfoldable pub default_kit : KitView
default_kit = record {
  primary_color = "#6366F1";
  secondary_color = "#0EA5E9";
  logo_url = none;
  font_family = none;
  watermark_enabled = false;
  music_url = none;
  music_name = none;
}

-- A row with the defaults of the database.
unfoldable pub blank_kit : ℕ → BrandKit
blank_kit org_id = record {
  org_id = org_id;
  primary_color = "#6366F1";
  secondary_color = "#0EA5E9";
  logo_storage_key = none;
  logo_url = none;
  font_family = none;
  watermark_enabled = false;
  music_storage_key = none;
  music_url = none;
  music_name = none;
}

unfoldable pub shown : BrandKit → KitView
shown k = record {
  primary_color = k.primary_color;
  secondary_color = k.secondary_color;
  logo_url = k.logo_url;
  font_family = k.font_family;
  watermark_enabled = k.watermark_enabled;
  music_url = k.music_url;
  music_name = k.music_name;
}

-- `input.fontFamily || null`
abbrev pub chosen_font : Option Text → Option Text
chosen_font none = none
chosen_font (some []) = none
chosen_font (some (c ∷ cs)) = some (c ∷ cs)

unfoldable pub with_input : KitInput → BrandKit → BrandKit
with_input input k = record k {
  primary_color = input.primary_color;
  secondary_color = input.secondary_color;
  font_family = chosen_font input.font_family;
  watermark_enabled = input.watermark_enabled;
}

unfoldable pub with_logo : ℕ → ℕ → BrandKit → BrandKit
with_logo key url k = record k { logo_storage_key = some key; logo_url = some url }

unfoldable pub with_music : ℕ → ℕ → Text → BrandKit → BrandKit
with_music key url name k = record k {
  music_storage_key = some key;
  music_url = some url;
  music_name = some name;
}

unfoldable pub without_music : BrandKit → BrandKit
without_music k = record k { music_storage_key = none; music_url = none; music_name = none }

abbrev pub is_logo_type : String → Bool
is_logo_type t = str_eq t "image/png" || str_eq t "image/jpg" || str_eq t "image/jpeg"

abbrev pub is_music_type : String → Bool
is_music_type t =
    str_eq t "audio/mpeg"
    || str_eq t "audio/mp3"
    || str_eq t "audio/wav"
    || str_eq t "audio/x-wav"
    || str_eq t "audio/mp4"
    || str_eq t "audio/aac"
    || str_eq t "audio/ogg"

module _ (T : Tables) where
  open T use {kits as Kits}

  unfoldable pub get_brand_kit : Data T → ℕ → KitView
  get_brand_kit d org_id = elim (Kits.find_unique d.kits org_id) [
    | none ↦ default_kit
    | some kit ↦ shown kit
  ]

  -- The `upsert`s of this service write the same columns in both cases.
  unfoldable pub upsert_kit :
      Data T
      → ℕ
      → (f : BrandKit → BrandKit) → ((k : BrandKit) → (f k).org_id ≡ k.org_id)
      → Option (Data T)
  upsert_kit d org_id f keeps = elim (Kits.find_unique d.kits org_id) [
    | none ↦
        Option.map (λ kits. record d { kits = kits }) (Kits.create (f (blank_kit org_id)) d.kits)
    | some kit ↦
        some (record d { kits = Kits.update_many (λ k. k.org_id == org_id) f keeps d.kits })
  ]

  unfoldable pub upsert_brand_kit : Data T → ℕ → KitInput → Data T × Result MediaRefusal KitView
  unfolding with_input
  upsert_brand_kit d org_id input = elim (upsert_kit d org_id (with_input input) (λ k. refl)) [
    | none ↦ (d, err write_failed)
    | some d' ↦ (d', ok (get_brand_kit d' org_id))
  ]

  -- `stored` has the storage key and the URL, and is none where the engine fails.
  unfoldable pub upload_logo :
      Data T
      → ℕ
      → (content_type : String) → (stored : Option (ℕ × ℕ)) → Data T × Result MediaRefusal ℕ
  unfolding with_logo
  upload_logo d org_id content_type stored =
      if is_logo_type content_type
      then elim stored [
        | none ↦ (d, err engine_failed)
        | some (key, url) ↦ elim (upsert_kit d org_id (with_logo key url) (λ k. refl)) [
          | none ↦ (d, err write_failed)
          | some d' ↦ (d', ok url)
        ]
      ]
      else (d, err bad_logo_type)

  unfoldable pub upload_brand_music :
      Data T
      → ℕ
      → (content_type : String) → (filename : Text) → (stored : Option (ℕ × ℕ))
      → Data T × Result MediaRefusal (ℕ × Text)
  unfolding with_music
  upload_brand_music d org_id content_type filename stored =
      if is_music_type content_type
      then elim stored [
        | none ↦ (d, err engine_failed)
        | some (key, url) ↦
            let name = take 200 filename in
            elim (upsert_kit d org_id (with_music key url name) (λ k. refl)) [
              | none ↦ (d, err write_failed)
              | some d' ↦ (d', ok (url, name))
            ]
      ]
      else (d, err bad_music_type)

  unfoldable pub remove_brand_music : Data T → ℕ → Data T
  unfolding without_music
  remove_brand_music d org_id = record d {
    kits = Kits.update_many (λ k. k.org_id == org_id) without_music (λ k. refl) d.kits;
  }
