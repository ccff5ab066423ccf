-- ===== src/Billing/Model.antt =====
-- The catalogue of packages/shared/src/plans.ts, and the rows of packages/db/prisma/schema.prisma
-- that billing reads and writes. Times are milliseconds since the epoch; ids are numbers in place
-- of the opaque strings of the columns.
use text.Mathlib.Text.{◌==◌ as str_eq}
use godeye.Prelude.{ℕ, Bool, false, ◌||◌, String, Option, some, List, [], ◌∷◌, ◌==◌}
use godeye.Db.{Table}

pub record PlanLimits : Type 0 where
  pub posts_per_month : ℕ
  pub ai_tokens_per_month : ℕ
  pub connections : ℕ
  pub seats : ℕ

pub record PlanDefinition : Type 0 where
  pub code : String
  pub price_monthly_usd : ℕ
  pub price_monthly_kes : ℕ
  pub limits : PlanLimits

abbrev pub plans : List PlanDefinition
plans =
    record {
      code = "PRO";
      price_monthly_usd = 19;
      price_monthly_kes = 2451;
      limits = record {
        posts_per_month = 30;
        ai_tokens_per_month = 100000;
        connections = 3;
        seats = 1;
      };
    }
    ∷ record {
      code = "PREMIUM";
      price_monthly_usd = 49;
      price_monthly_kes = 6321;
      limits = record {
        posts_per_month = 500;
        ai_tokens_per_month = 2000000;
        connections = 15;
        seats = 5;
      };
    }
    ∷ record {
      code = "VIP";
      price_monthly_usd = 199;
      price_monthly_kes = 25671;
      limits = record {
        posts_per_month = 5000;
        ai_tokens_per_month = 20000000;
        connections = 100;
        seats = 25;
      };
    }
    ∷ []

abbrev pub trial_hours : ℕ
trial_hours = 24

abbrev pub billing_exempt_slugs : List String
billing_exempt_slugs = "godeye" ∷ "patampoa" ∷ "mjini-collection" ∷ []

-- `BILLING_EXEMPT_SLUGS.includes(slug)`
abbrev pub includes : List String → String → Bool
includes [] s = false
includes (x ∷ xs) s = str_eq x s || includes xs s

unfoldable pub is_exempt : String → Bool
is_exempt slug = includes billing_exempt_slugs slug

pub data WorkspaceAccessStatus : Type 0 where
  trialing active exempt locked : WorkspaceAccessStatus

pub record WorkspaceAccess : Type 0 where
  pub status : WorkspaceAccessStatus
  pub locked : Bool
  pub trial_ends_at : Option ℕ
  pub plan_code : Option String

-- The enum of the schema. Its words are constructors of another type as well, so they are written
-- with the type in front.
pub data SubscriptionStatus : Type 0 where
  trialing active past_due canceled : SubscriptionStatus

pub record Subscription : Type 0 where
  pub org_id : ℕ
  pub plan_id : ℕ
  pub status : SubscriptionStatus
  pub provider_customer_id : Option ℕ
  pub provider_subscription_id : Option ℕ
  pub current_period_end : Option ℕ

pub record Organization : Type 0 where
  pub id : ℕ
  pub slug : String

-- The JSON column `limits`, read as `Partial<PlanLimits>`.
pub record RawLimits : Type 0 where
  pub posts_per_month : Option ℕ
  pub ai_tokens_per_month : Option ℕ
  pub connections : Option ℕ
  pub seats : Option ℕ

pub record Plan : Type 0 where
  pub id : ℕ
  pub code : String
  pub limits : RawLimits

pub data PaymentMode : Type 0 where
  once subscription : PaymentMode

-- `provider` is "paystack" in every row, so `reference` alone identifies one.
pub record PaymentApplication : Type 0 where
  pub reference : ℕ
  pub org_id : ℕ
  pub event_id : Option ℕ
  pub plan_code : String
  pub mode : PaymentMode
  pub paid_until : Option ℕ

-- A unique column that may be NULL forbids only equal values.
abbrev pub same_value : Option ℕ → Option ℕ → Bool
same_value (some a) (some b) = a == b
same_value _ _ = false

abbrev pub sub_key : Subscription → ℕ
sub_key s = s.org_id

abbrev pub sub_clash : Subscription → Subscription → Bool
sub_clash r s = r.org_id == s.org_id

abbrev pub org_key : Organization → ℕ
org_key o = o.id

abbrev pub org_clash : Organization → Organization → Bool
org_clash r s = r.id == s.id || str_eq r.slug s.slug

abbrev pub plan_key : Plan → ℕ
plan_key p = p.id

abbrev pub plan_clash : Plan → Plan → Bool
plan_clash r s = r.id == s.id || str_eq r.code s.code

abbrev pub payment_key : PaymentApplication → ℕ
payment_key p = p.reference

-- @@unique([provider, reference]) and @@unique([provider, eventId])
abbrev pub payment_clash : PaymentApplication → PaymentApplication → Bool
payment_clash r s = r.reference == s.reference || same_value r.event_id s.event_id

pub record Tables : Type 1 where
  pub orgs : Table Organization org_key org_clash
  pub subs : Table Subscription sub_key sub_clash
  pub plans : Table Plan plan_key plan_clash
  pub payments : Table PaymentApplication payment_key payment_clash

-- The contents of the four tables.
pub record Data (T : Tables) : Type 0 where
  pub orgs : T.orgs.Rows
  pub subs : T.subs.Rows
  pub plans : T.plans.Rows
  pub payments : T.payments.Rows
