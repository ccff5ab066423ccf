-- ===== src/Connections/Channels.antt =====
-- apps/api/src/connections/connections.service.ts: the rows of the social channels. The rows are
-- those of SocialConnection in packages/db/prisma/schema.prisma with the columns that this service
-- writes; account names, credentials and metadata are opaque numbers, `encrypt` is the cipher of
-- apps/api/src/common/crypto.service.ts, bound to the workspace, and `within` is what
-- `billing.assertWithinLimit` answers for one more channel.
use godeye.Prelude.{
  ℕ, ◌*◌, ◌-◌, refl, Bool, not, ◌&&◌, Option, none, some, ◌==◌, leb, if◌then◌else◌, Result, ok, err,
}
use mathlib.Core.Bool.{decide}
use godeye.Db.{Table}
use godeye.Publishing.Model.{ConnectionStatus, is_active}

pub data Platform : Type 0 where
  facebook instagram tiktok linkedin reddit x telegram discord : Platform

pub Platform-discrete : Discrete Platform
Platform-discrete = hlevel

abbrev pub same_platform : Platform → Platform → Bool
same_platform p q = decide (Platform-discrete p q)

pub record Channel : Type 0 where
  pub id : ℕ
  pub org_id : ℕ
  pub platform : Platform
  pub external_id : ℕ
  pub display_name : ℕ
  pub encrypted_credentials : ℕ
  pub status : ConnectionStatus
  pub last_error : Option ℕ
  pub last_error_at : Option ℕ
  pub last_checked_at : ℕ
  pub metadata : Option ℕ
  pub expires_at : Option ℕ

abbrev pub channel_key : Channel → ℕ
channel_key c = c.id

abbrev pub channel_clash : Channel → Channel → Bool
channel_clash r s = r.id == s.id

abbrev pub error_relevant_ms : ℕ
error_relevant_ms = 24 * 3_600_000

-- The error that is worth showing. An error stamped in the future is as fresh as one of now.
unfoldable pub current_error : ℕ → Channel → Option ℕ
current_error now c = elim c.last_error [
  | none ↦ none
  | some message ↦ if not (is_active c.status) then some message else elim c.last_error_at [
    | none ↦ none
    | some at ↦ if leb (now - at) error_relevant_ms then some message else none
  ]
]

-- An account as a platform describes it.
pub record Account : Type 0 where
  pub platform : Platform
  pub external_id : ℕ
  pub display_name : ℕ
  pub credentials : ℕ
  pub metadata : Option ℕ
  pub expires_at : Option ℕ

pub data ChannelRefusal : Type 0 where
  channel_not_found channel_limit_reached channel_write_failed : ChannelRefusal

abbrev pub or_same : Option ℕ → Option ℕ → Option ℕ
or_same none old = old
or_same (some a) old = some a

unfoldable pub reconnected : (ℕ → ℕ → ℕ) → ℕ → ℕ → Account → Channel → Channel
reconnected encrypt now org_id a c = record c {
  display_name = a.display_name;
  encrypted_credentials = encrypt org_id a.credentials;
  status = ConnectionStatus.active;
  last_error = none;
  last_error_at = none;
  last_checked_at = now;
  metadata = or_same a.metadata c.metadata;
  expires_at = or_same a.expires_at c.expires_at;
}

unfoldable pub new_channel : (ℕ → ℕ → ℕ) → ℕ → ℕ → ℕ → Account → Channel
new_channel encrypt now org_id id a = record {
  id = id;
  org_id = org_id;
  platform = a.platform;
  external_id = a.external_id;
  display_name = a.display_name;
  encrypted_credentials = encrypt org_id a.credentials;
  status = ConnectionStatus.active;
  last_error = none;
  last_error_at = none;
  last_checked_at = now;
  metadata = a.metadata;
  expires_at = a.expires_at;
}

module _ (C : Table Channel channel_key channel_clash) (encrypt : ℕ → ℕ → ℕ) where
  -- `where: { orgId, platform, externalId }`
  unfoldable pub account_where : ℕ → Account → Channel → Bool
  account_where org_id a c =
      c.org_id == org_id && same_platform c.platform a.platform && c.external_id == a.external_id

  -- `id` is the one that the database gives a new row.
  unfoldable pub upsert_connection :
      C.Rows → ℕ → ℕ → (within : Bool) → (id : ℕ) → Account → C.Rows × Result ChannelRefusal Channel
  unfolding reconnected
  upsert_connection rows now org_id within id a =
      elim (C.find_first (account_where org_id a) rows) [
        | some existing ↦ (
          C.update_many (λ c. c.id == existing.id) (reconnected encrypt now org_id a) (λ c. refl)
              rows,
          ok (reconnected encrypt now org_id a existing),
        )
        | none ↦
            if not within
            then (rows, err channel_limit_reached)
            else elim (C.create (new_channel encrypt now org_id id a) rows) [
              | none ↦ (rows, err channel_write_failed)
              | some rows' ↦ (rows', ok (new_channel encrypt now org_id id a))
            ]
      ]

  unfoldable pub remove_channel : C.Rows → ℕ → ℕ → C.Rows × Result ChannelRefusal (Unit {0})
  remove_channel rows org_id id = elim (C.find_first (λ c. c.id == id && c.org_id == org_id) rows) [
    | none ↦ (rows, err channel_not_found)
    | some conn ↦ (C.delete_many (λ c. c.id == id && c.org_id == org_id) rows, ok tt)
  ]
