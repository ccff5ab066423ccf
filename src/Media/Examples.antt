-- ===== src/Media/Examples.antt =====
-- Two concrete workspaces with their files and kits, on which the theorems about them are applied.
use godeye.Prelude.{
  ℕ, ◌≡◌, refl, true, false, none, some, List, [], ◌∷◌, arith, Bool-cases, inl, inr, ap, ◌∙◌, ◌==◌,
}
use godeye.Db.ListTable.{list_table}
use godeye.Publishing.Model.{ContentItem, ContentStatus, content_key, content_clash}
use godeye.Runs.{AgentRun, run_key, run_clash}
use godeye.Media.{
  MediaAsset, BrandKit, Stored, Tables, Data, asset_key, asset_clash, kit_key, kit_clash, new_asset,
}
use godeye.Media.Brand.{KitInput, get_brand_kit}
use godeye.Media.Brand.Promise.{
  KitCall, saves, uploads_logo, uploads_music, removes_music, promised_all,
}
use godeye.Media.Brand.Refines.{run_kit, get_brand_kit-run_kit}
use godeye.Media.Attached.{
  MediaCall, uploads, attaches, removes, run_media, IsOwn, IsAttached, run_media-IsAttached,
}

content-covers : (r s : ContentItem) → content_key r ≡ content_key s → content_clash r s ≡ true
content-covers r s h = ground arith

run-covers : (r s : AgentRun) → run_key r ≡ run_key s → run_clash r s ≡ true
run-covers r s h = ground arith

asset-covers : (r s : MediaAsset) → asset_key r ≡ asset_key s → asset_clash r s ≡ true
asset-covers r s h = ground arith

kit-covers : (r s : BrandKit) → kit_key r ≡ kit_key s → kit_clash r s ≡ true
kit-covers r s h = ground arith

abbrev media_tables : Tables
media_tables = record {
  contents = list_table content_key content_clash content-covers;
  runs = list_table run_key run_clash run-covers;
  assets = list_table asset_key asset_clash asset-covers;
  kits = list_table kit_key kit_clash kit-covers;
}

abbrev post : ContentItem
post = record {
  id = 21;
  org_id = 8;
  status = ContentStatus.draft;
  title = none;
  body = "Hello";
  hashtags = [];
  variants = none;
  ab_variants = none;
  evergreen = false;
  slideshow_seconds = 30;
  render_as_video = false;
  submitted_at = none;
  submitted_by_id = none;
  reviewed_at = none;
  reviewed_by_id = none;
  review_note = none;
}

abbrev file : Stored
file = record { storage_key = 501; url = 502; size_bytes = 9000 }

abbrev studio : Data media_tables
unfolding list_table
studio = record {
  contents = (post ∷ [], (refl, tt));
  runs = ([], tt);
  assets = (new_asset 31 8 (some 21) "image/png" file ∷ [], (refl, tt));
  kits = ([], tt);
}

abbrev media_calls : List MediaCall
media_calls =
    uploads 8 (some 21) "video/mp4" (some file) 32
    ∷ uploads 9 (some 21) "image/png" (some file) 33
    ∷ uploads 9 none "image/png" (some file) 34
    ∷ attaches 9 34 21
    ∷ removes 9 31
    ∷ []

studio-IsAttached : IsAttached media_tables studio
unfolding IsAttached IsOwn list_table
studio-IsAttached k a at c is = elim (Bool-cases (31 == k)) [
  | inl own ↦
      let same : new_asset 31 8 (some 21) "image/png" file ≡ a = ground arith in
      let named : some 21 ≡ some c = ap (λ (m : MediaAsset). m.content_item_id) same ∙ is in
      (post, ground arith, ap (λ (m : MediaAsset). m.org_id) same)
  | inr other ↦ ground arith
]

run_media-IsAttached_example : IsAttached media_tables (run_media media_tables studio media_calls)
run_media-IsAttached_example =
    run_media-IsAttached media_tables media_calls studio studio-IsAttached

abbrev look : KitInput
look = record {
  primary_color = "#112233";
  secondary_color = "#445566";
  font_family = some [];
  watermark_enabled = true;
}

abbrev kit_calls : List KitCall
kit_calls =
    uploads_logo 8 "image/png" (some (61, 62))
    ∷ saves 8 look
    ∷ uploads_music 9 "audio/ogg" (b'a' ∷ b'b' ∷ []) (some (63, 64))
    ∷ uploads_logo 9 "image/gif" (some (65, 66))
    ∷ removes_music 9
    ∷ []

get_brand_kit-run_kit_example :
    ((k : ℕ)
      → get_brand_kit media_tables (run_kit media_tables studio kit_calls).0 k
        ≡ (promised_all (get_brand_kit media_tables studio) kit_calls).0 k)
    × ((run_kit media_tables studio kit_calls).1
        ≡ (promised_all (get_brand_kit media_tables studio) kit_calls).1)
get_brand_kit-run_kit_example = get_brand_kit-run_kit media_tables kit_calls studio
