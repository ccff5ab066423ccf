-- ===== src/Media/Brand/Promise.antt =====
-- What the workspaces are promised of their brand kits: one view for each, with no rows behind it.
use godeye.Prelude.{String, Text, take, ℕ, Option, none, some, List, [], ◌∷◌, ◌==◌, if◌then◌else◌}
use godeye.Media.{MediaRefusal, engine_failed, bad_logo_type, bad_music_type}
use godeye.Media.Brand.{KitView, KitInput, chosen_font, is_logo_type, is_music_type}

-- The calls that write a kit, each with the workspace that makes it.
pub data KitCall : Type 0 where
  saves : (org_id : ℕ) → KitInput → KitCall
  uploads_logo : (org_id : ℕ) → (content_type : String) → Option (ℕ × ℕ) → KitCall
  uploads_music :
      (org_id : ℕ) → (content_type : String) → (filename : Text) → Option (ℕ × ℕ) → KitCall
  removes_music : (org_id : ℕ) → KitCall

pub data KitAnswer : Type 0 where
  kit_saved : KitView → KitAnswer
  logo_stored : (url : ℕ) → KitAnswer
  music_stored : (url : ℕ) → (name : Text) → KitAnswer
  music_removed : KitAnswer
  refused : MediaRefusal → KitAnswer

-- What a workspace is promised: the kit it has, and the columns that a call sets.
abbrev pub Kits : Type 0
Kits = ℕ → KitView

abbrev pub put_kit : Kits → ℕ → KitView → Kits
put_kit s org_id v k = if org_id == k then v else s k

unfoldable pub promised : Kits → KitCall → Kits × KitAnswer
promised s (saves org_id input) =
    let v : KitView = record (s org_id) {
      primary_color = input.primary_color;
      secondary_color = input.secondary_color;
      font_family = chosen_font input.font_family;
      watermark_enabled = input.watermark_enabled;
    } in
    (put_kit s org_id v, kit_saved v)
promised s (uploads_logo org_id content_type stored) =
    if is_logo_type content_type
    then elim stored [
      | none ↦ (s, refused engine_failed)
      | some (key, url) ↦
          (put_kit s org_id (record (s org_id) { logo_url = some url }), logo_stored url)
    ]
    else (s, refused bad_logo_type)
promised s (uploads_music org_id content_type filename stored) =
    if is_music_type content_type
    then elim stored [
      | none ↦ (s, refused engine_failed)
      | some (key, url) ↦
          let name = take 200 filename in
          (
            put_kit s org_id (record (s org_id) { music_url = some url; music_name = some name }),
            music_stored url name,
          )
    ]
    else (s, refused bad_music_type)
promised s (removes_music org_id) =
    (put_kit s org_id (record (s org_id) { music_url = none; music_name = none }), music_removed)

unfoldable pub promised_all : Kits → List KitCall → Kits × List KitAnswer
unfolding promised
promised_all s [] = (s, [])
promised_all s (c ∷ calls) =
    let (s1, answer) = promised s c in
    let (s2, answers) = promised_all s1 calls in (s2, answer ∷ answers)
