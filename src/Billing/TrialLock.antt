-- ===== src/Billing/TrialLock.antt =====
-- apps/api/src/billing/trial-lock.interceptor.ts: the read-only lock on every request.
use Prim.Native.String
use text.Mathlib.Text.{◌==◌ as str_eq, starts_with}
use godeye.Prelude.{
  ℕ, ◌≤◌, ◌≡◌, inl, inr, Bool, true, false, String, Option, none, some, List, [], ◌∷◌, arith,
  if◌then◌else◌, Bool-cases, Option-cases, Result, ok, err, ◌||◌,
}
use godeye.Billing.Model.{Tables, Data, includes}
use godeye.Billing.Access.{Cache, OrgView, decide, org_view, state}
use godeye.Billing.Access.Entitled.{Entitled, unlocked-iff-Entitled}
use godeye.Billing.Access.Cache.{IsCoherent, state-decide}

abbrev pub read_methods : List String
read_methods = "GET" ∷ "HEAD" ∷ "OPTIONS" ∷ []

abbrev pub open_prefixes : List String
open_prefixes = "/auth" ∷ "/billing" ∷ "/webhooks" ∷ "/health" ∷ []

-- `OPEN_PREFIXES.some(...)`
abbrev pub under_prefix : List String → String → Bool
under_prefix [] path = false
under_prefix (p ∷ ps) path =
    (str_eq path p || starts_with path (String.◌++◌ p "/")) || under_prefix ps path

unfoldable pub is_read_method : String → Bool
is_read_method method = includes read_methods method

unfoldable pub is_open_path : String → Bool
is_open_path path = under_prefix open_prefixes path

-- What the interceptor reads of the execution context. `org_id` is `req.auth?.orgId`.
pub record Request : Type 0 where
  pub is_http : Bool
  pub method : String
  pub org_id : Option ℕ
  pub path : String

pub data Refusal : Type 0 where
  workspace_locked : Refusal

module _ (T : Tables) where
  -- `ok tt` is `next.handle()`.
  pub intercept : Data T → Cache → ℕ → ℕ → Request → Result Refusal (Unit {0}) × Cache
  intercept d c now later r =
      if r.is_http
      then if is_read_method r.method then (ok tt, c) else elim r.org_id [
        | none ↦ (ok tt, c)
        | some org_id ↦
            if is_open_path r.path
            then (ok tt, c)
            else let (access, c') = state T d c org_id now later in
              (if access.locked then err workspace_locked else ok tt, c')
      ]
      else (ok tt, c)

  -- A request to write: HTTP, a method that may write, a signed-in workspace, and a path outside
  -- the open prefixes.
  pub record IsWrite (r : Request) (org_id : ℕ) : Type 0 where
    pub http : r.is_http ≡ true
    pub writes : is_read_method r.method ≡ false
    pub signed_in : r.org_id ≡ some org_id
    pub closed_path : is_open_path r.path ≡ false

  -- With a cache that agrees with the tables, a write of an existing workspace is refused if the
  -- workspace is not entitled to write at any time during the call, and passes if it is entitled
  -- throughout.
  pub intercept-write :
      (d : Data T) (c : Cache) (now later : ℕ) (r : Request) (org_id : ℕ) (org : OrgView)
      → now ≤ later
      → IsCoherent T d c now
      → IsWrite r org_id
      → org_view T d org_id ≡ some org
      → (((t : ℕ) → now ≤ t → t ≤ later → ¬ Entitled t org)
          → (intercept d c now later r).0 ≡ err workspace_locked)
        × (((t : ℕ) → now ≤ t → t ≤ later → Entitled t org) → (intercept d c now later r).0 ≡ ok tt)
  unfolding intercept
  intercept-write d c now later r org_id org h k w e =
      let (t, from, to, answer) = state-decide T d org_id h k in
      let (unlocked, entitled) = unlocked-iff-Entitled t org in
      (
        λ never. elim (Bool-cases (decide t (some org)).locked) [
          | inl yes_locked ↦ ground arith
          | inr not_locked ↦ absurd (never t from to (unlocked not_locked))
        ],
        λ always. ground (arith, entitled (always t from to)),
      )

  -- Whatever the state of its workspace, a request that is no such write passes.
  pub intercept-other :
      (d : Data T) (c : Cache) (now later : ℕ) (r : Request)
      → ((org_id : ℕ) → ¬ IsWrite r org_id)
      → intercept d c now later r ≡ (ok tt, c)
  unfolding intercept
  intercept-other d c now later r no_write = elim (Option-cases r.org_id) [
    | inl anonymous ↦ ground arith
    | inr (org_id, e) ↦ ground (arith, not_write org_id e)
  ]
    where
      not_write :
          (org_id : ℕ)
          → r.org_id ≡ some org_id
          → r.is_http ≡ true
          → is_read_method r.method ≡ false
          → is_open_path r.path ≡ false
          → ⊥
      not_write org_id e a b p =
          no_write org_id (record { http = a; writes = b; signed_in = e; closed_path = p })
