-- ===== src/Connections/State.antt =====
-- apps/api/src/connections/oauth-state.service.ts: the state parameter of an OAuth flow. The store is
-- Redis, which forgets a record after its time. The JWT that carries the claims is signed and checked
-- by a library: `issue` gives the claims to sign, and `consume` takes what the check of a state
-- yields. Ids, nonces, verifiers and hashes are numbers.
use godeye.Prelude.{
  ℕ, ◌+◌, ◌*◌, Bool, true, false, not, ◌||◌, Option, none, some, ◌==◌, ltb, if◌then◌else◌, Result,
  ok, err,
}
use mathlib.Core.Bool.{decide}

pub data Provider : Type 0 where
  meta instagram tiktok linkedin reddit : Provider

unfoldable pub Provider-discrete : Discrete Provider
Provider-discrete = hlevel

abbrev pub same_provider : Provider → Provider → Bool
same_provider p q = decide (Provider-discrete p q)

abbrev pub state_ttl : ℕ
state_ttl = 10 * 60 * 1000

abbrev pub pkce_supported : Provider → Bool
pkce_supported Provider.tiktok = true
pkce_supported _ = false

pub record StateClaims : Type 0 where
  pub org_id : ℕ
  pub sub : ℕ
  pub provider : Provider
  pub jti : ℕ
  pub nch : ℕ

-- The record in the store, with the time at which it is forgotten.
pub record PendingState : Type 0 where
  pub org_id : ℕ
  pub user_id : ℕ
  pub code_verifier : Option ℕ
  pub expires_at : ℕ

pub record ConsumedState : Type 0 where
  pub org_id : ℕ
  pub user_id : ℕ
  pub code_verifier : Option ℕ

abbrev pub StateStore : Type 0
StateStore = ℕ → Option PendingState

-- The nonces in the browser's cookies.
abbrev pub Cookies : Type 0
Cookies = Provider → Option ℕ

pub data StateRefusal : Type 0 where
  store_unreachable state_invalid other_platform other_browser state_spent : StateRefusal
  state_mismatch : StateRefusal

-- The random values of a flow.
pub record StateRandom : Type 0 where
  pub jti : ℕ
  pub nonce : ℕ
  pub verifier : ℕ

abbrev pub put_state : StateStore → ℕ → Option PendingState → StateStore
put_state store jti p k = if k == jti then p else store k

abbrev pub set_cookie : Cookies → Provider → Option ℕ → Cookies
set_cookie cookies provider nonce q = if same_provider q provider then nonce else cookies q

-- `GETDEL`: the record if it is still there, and the store without it.
unfoldable pub take_state : StateStore → ℕ → ℕ → Option PendingState × StateStore
take_state store now jti = (
  elim (store jti) [ none ↦ none | some p ↦ if ltb now p.expires_at then some p else none ],
  put_state store jti none,
)

module _ (hash : ℕ → ℕ) where
  unfoldable pub issue :
      StateStore
      → Cookies
      → ℕ
      → (reachable : Bool) → StateRandom
      → Provider
      → ℕ
      → ℕ
      → StateStore × Cookies × Result StateRefusal StateClaims
  issue store cookies now reachable random provider org_id user_id =
      if not reachable then (store, cookies, err store_unreachable) else (
        put_state store random.jti (
            some (record {
              org_id = org_id;
              user_id = user_id;
              code_verifier = if pkce_supported provider then some random.verifier else none;
              expires_at = now + state_ttl;
            })),
        set_cookie cookies provider (some random.nonce),
        ok (record {
          org_id = org_id;
          sub = user_id;
          provider = provider;
          jti = random.jti;
          nch = hash random.nonce;
        }),
      )

  -- The browser binding: the cookie is there and is the one of the flow.
  abbrev pub is_bound : Cookies → Provider → ℕ → Bool
  is_bound cookies provider nch = elim (cookies provider) [
    | none ↦ false
    | some nonce ↦ hash nonce == nch
  ]

  -- `claims` is `none` where the check of the state's JWT throws.
  unfoldable pub consume :
      StateStore
      → Cookies
      → ℕ
      → (reachable : Bool) → Provider
      → Option StateClaims
      → StateStore × Cookies × Result StateRefusal ConsumedState
  consume store cookies now reachable provider none = (store, cookies, err state_invalid)
  consume store cookies now reachable provider (some claims) =
      if not (same_provider claims.provider provider)
      then (store, cookies, err other_platform)
      else if not (is_bound cookies provider claims.nch)
      then (store, cookies, err other_browser)
      else let cookies' = set_cookie cookies provider none in
        let (found, store') = take_state store now claims.jti in
        if not reachable then (store, cookies', err store_unreachable) else elim found [
          | none ↦ (store', cookies', err state_spent)
          | some p ↦
              if not (p.org_id == claims.org_id) || not (p.user_id == claims.sub)
              then (store', cookies', err state_mismatch)
              else (
                store',
                cookies',
                ok (record {
                  org_id = p.org_id;
                  user_id = p.user_id;
                  code_verifier = p.code_verifier;
                }),
              )
        ]
