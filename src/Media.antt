-- ===== src/Media.antt =====
-- apps/api/src/media/media.service.ts: the images, videos and uploads of a workspace. The engine, which
-- makes and stores the files, is remote: what it answers is an argument. Storage keys, URLs, prompts and
-- error texts are numbers; the form of an input is checked before (packages/shared/src/schemas.ts).
pub mod Attached
pub mod Brand
pub mod Isolated
mod Examples
use text.Mathlib.Text.{starts_with}
use godeye.Prelude.{
  false, String, Text, ℕ, ◌≡◌, refl, Bool, true, ◌&&◌, Option, none, some, List, ◌==◌, is_some,
  if◌then◌else◌, Result, ok, err,
}
use godeye.Db.{Table}
use godeye.Publishing.Model.{ContentItem, content_key, content_clash}
use godeye.Runs.{AgentType, AgentRun, run_key, run_clash, new_run, with_task, with_failure}

pub data MediaKind : Type 0 where
  image video audio document : MediaKind

pub data MediaSource : Type 0 where
  uploaded ai_generated imported : MediaSource

pub record MediaAsset : Type 0 where
  pub id : ℕ
  pub org_id : ℕ
  pub content_item_id : Option ℕ
  pub kind : MediaKind
  pub source : MediaSource
  pub storage_key : ℕ
  pub url : Option ℕ
  pub mime_type : String
  pub size_bytes : Option ℕ
  pub width : Option ℕ
  pub height : Option ℕ
  pub prompt : Option ℕ
  pub preset : Option ℕ

pub record BrandKit : Type 0 where
  pub org_id : ℕ
  pub primary_color : String
  pub secondary_color : String
  pub logo_storage_key : Option ℕ
  pub logo_url : Option ℕ
  pub font_family : Option Text
  pub watermark_enabled : Bool
  pub music_storage_key : Option ℕ
  pub music_url : Option ℕ
  pub music_name : Option Text

abbrev pub asset_key : MediaAsset → ℕ
asset_key a = a.id

abbrev pub asset_clash : MediaAsset → MediaAsset → Bool
asset_clash r s = r.id == s.id

-- The kit of a workspace is found by its unique column `orgId`, its key here.
abbrev pub kit_key : BrandKit → ℕ
kit_key k = k.org_id

abbrev pub kit_clash : BrandKit → BrandKit → Bool
kit_clash r s = r.org_id == s.org_id

pub record Tables : Type 1 where
  pub contents : Table ContentItem content_key content_clash
  pub runs : Table AgentRun run_key run_clash
  pub assets : Table MediaAsset asset_key asset_clash
  pub kits : Table BrandKit kit_key kit_clash

pub record Data (T : Tables) : Type 0 where
  pub contents : T.contents.Rows
  pub runs : T.runs.Rows
  pub assets : T.assets.Rows
  pub kits : T.kits.Rows

pub data MediaRefusal : Type 0 where
  content_not_found media_not_found : MediaRefusal
  engine_failed write_failed bad_logo_type bad_music_type : MediaRefusal

-- What the engine makes of an upload.
pub record Stored : Type 0 where
  pub storage_key : ℕ
  pub url : ℕ
  pub size_bytes : ℕ

abbrev pub kind_of : String → MediaKind
kind_of content_type =
    if starts_with content_type "video/" then MediaKind.video else MediaKind.image

abbrev pub new_asset : ℕ → ℕ → Option ℕ → String → Stored → MediaAsset
new_asset id org_id content_item_id content_type stored = record {
  id = id;
  org_id = org_id;
  content_item_id = content_item_id;
  kind = kind_of content_type;
  source = MediaSource.uploaded;
  storage_key = stored.storage_key;
  url = some stored.url;
  mime_type = content_type;
  size_bytes = some stored.size_bytes;
  width = none;
  height = none;
  prompt = none;
  preset = none;
}

abbrev pub with_content : ℕ → MediaAsset → MediaAsset
with_content content_item_id a = record a { content_item_id = some content_item_id }

module _ (T : Tables) where
  open T use {contents as Contents, runs as Runs, assets as Assets}

  -- A content item that is named must be one of the workspace.
  unfoldable pub content_known : Data T → ℕ → Option ℕ → Bool
  content_known d org_id none = true
  content_known d org_id (some id) =
      is_some (Contents.find_first (λ c. c.id == id && c.org_id == org_id) d.contents)

  -- generateImage and generateVideo differ in the agent and in the input that is stored with the run.
  unfoldable pub generate :
      Data T
      → AgentType
      → ℕ
      → (content_item_id : Option ℕ) → (run_id input : ℕ) → (enqueued : Result ℕ ℕ)
      → Data T × Result MediaRefusal (ℕ × ℕ)
  generate d agent org_id content_item_id run_id input enqueued =
      if content_known d org_id content_item_id
      then elim (Runs.create (new_run run_id org_id agent input) d.runs) [
        | none ↦ (d, err write_failed)
        | some runs ↦ elim enqueued [
          | ok task_id ↦ (
            record d {
              runs = Runs.update_many (λ r. r.id == run_id) (with_task task_id) (λ r. refl) runs;
            },
            ok (run_id, task_id),
          )
          | err error ↦ (
            record d {
              runs = Runs.update_many (λ r. r.id == run_id) (with_failure error) (λ r. refl) runs;
            },
            err engine_failed,
          )
        ]
      ]
      else (d, err content_not_found)

  abbrev pub generate_image :
      Data T → ℕ → Option ℕ → ℕ → ℕ → Result ℕ ℕ → Data T × Result MediaRefusal (ℕ × ℕ)
  generate_image d = generate d AgentType.image

  abbrev pub generate_video :
      Data T → ℕ → Option ℕ → ℕ → ℕ → Result ℕ ℕ → Data T × Result MediaRefusal (ℕ × ℕ)
  generate_video d = generate d AgentType.video

  -- `stored` is none where the engine fails.
  unfoldable pub upload_photo :
      Data T
      → ℕ
      → (content_item_id : Option ℕ) → (content_type : String) → (stored : Option Stored) → (id : ℕ)
      → Data T × Result MediaRefusal MediaAsset
  upload_photo d org_id content_item_id content_type stored id =
      if content_known d org_id content_item_id
      then elim stored [
        | none ↦ (d, err engine_failed)
        | some file ↦
            let asset = new_asset id org_id content_item_id content_type file in
            elim (Assets.create asset d.assets) [
              | none ↦ (d, err write_failed)
              | some assets ↦ (record d { assets = assets }, ok asset)
            ]
      ]
      else (d, err content_not_found)

  abbrev pub filed_under : Option ℕ → Option ℕ → Bool
  filed_under none column = true
  filed_under (some id) none = false
  filed_under (some id) (some c) = c == id

  unfoldable pub list_media : Data T → ℕ → Option ℕ → List MediaAsset
  list_media d org_id content_item_id =
      Assets.find_many (λ a. a.org_id == org_id && filed_under content_item_id a.content_item_id)
        100 d.assets

  unfoldable pub attach :
      Data T → ℕ → (media_id content_item_id : ℕ) → Data T × Result MediaRefusal MediaAsset
  attach d org_id media_id content_item_id =
      elim (Assets.find_first (λ a. a.id == media_id && a.org_id == org_id) d.assets) [
        | none ↦ (d, err media_not_found)
        | some media ↦
            if content_known d org_id (some content_item_id)
            then (
              record d {
                assets =
                    Assets.update_many (λ a. a.id == media_id) (with_content content_item_id)
                      (λ a. refl) d.assets;
              },
              ok (with_content content_item_id media),
            )
            else (d, err content_not_found)
      ]

  unfoldable pub remove : Data T → ℕ → ℕ → Data T × Result MediaRefusal (Unit {0})
  remove d org_id media_id =
      elim (Assets.find_first (λ a. a.id == media_id && a.org_id == org_id) d.assets) [
        | none ↦ (d, err media_not_found)
        | some media ↦ (
          record d {
            assets = Assets.delete_many (λ a. a.id == media_id && a.org_id == org_id) d.assets;
          },
          ok tt,
        )
      ]
