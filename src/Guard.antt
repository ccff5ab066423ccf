-- ===== src/Guard.antt =====
-- apps/api/src/common/membership.service.ts and apps/api/src/common/roles.guard.ts: who may call a
-- route. The access token is checked by apps/api/src/common/jwt-auth.guard.ts with the JWT library,
-- and what it yields is an argument; so are the route's annotations, which Nest's Reflector reads.
pub mod Recent
pub mod Demotion
pub mod Examples
use godeye.Prelude.{
  ℕ, suc, ◌+◌, ◌-◌, refl, Bool, true, false, not, ◌&&◌, Option, none, some, List, [], ◌∷◌, ◌==◌,
  leb, ltb, if◌then◌else◌, get_or, Result, ok, err,
}
use mathlib.Core.Option
use godeye.Auth.Model.{OrgRole, Membership, Tables, Data}
use godeye.Members.{role_rank, find_member}

abbrev pub cache_ttl : ℕ
cache_ttl = 5000

pub record LiveMembership : Type 0 where
  pub role : OrgRole
  pub session_version : ℕ

pub record CachedMember : Type 0 where
  pub value : Option LiveMembership
  pub at : ℕ

-- The map from `userId:orgId`.
abbrev pub MemberCache : Type 0
MemberCache = ℕ → ℕ → Option CachedMember

abbrev pub put : MemberCache → ℕ → ℕ → Option CachedMember → MemberCache
put c user_id org_id e u o = if u == user_id && o == org_id then e else c u o

abbrev pub invalidate : MemberCache → ℕ → ℕ → MemberCache
invalidate c user_id org_id = put c user_id org_id none

-- What the access token says. `role` and `sv` are absent in a token that lacks them.
pub record AccessToken : Type 0 where
  pub sub : ℕ
  pub org_id : ℕ
  pub role : Option OrgRole
  pub sv : Option ℕ

pub record Route : Type 0 where
  pub is_http : Bool
  pub is_public : Bool
  pub min_role : Option OrgRole

pub data Denial : Type 0 where
  unauthenticated no_access_level no_role not_a_member session_ended role_too_low : Denial

abbrev pub role_at_least : OrgRole → OrgRole → Bool
role_at_least role required = leb (role_rank required) (role_rank role)

abbrev pub live_of : Membership → LiveMembership
live_of m = record { role = m.role; session_version = m.session_version }

-- The guard from the live membership on.
unfoldable pub judge : OrgRole → AccessToken → Option LiveMembership → Result Denial OrgRole
judge required auth none = err not_a_member
judge required auth (some live) =
    if not (live.session_version == get_or auth.sv 0)
    then err session_ended
    else if not (role_at_least live.role required)
    then err role_too_low
    else ok live.role

abbrev pub bump_version : Membership → Membership
bump_version m = record m { session_version = suc m.session_version }

module _ (T : Tables) (hash : ℕ → ℕ) where
  open T use {memberships as Memberships}

  -- The row that `current` selects.
  unfoldable pub live_row : Data T → ℕ → ℕ → Option LiveMembership
  live_row d user_id org_id = Option.map live_of (find_member T hash d org_id user_id)

  -- `current` looks at the cache at `now`; where it reads the row, it finds the tables `d` and
  -- stores the answer at `later`.
  unfoldable pub current :
      Data T → MemberCache → ℕ → ℕ → ℕ → ℕ → Option LiveMembership × MemberCache
  current d c user_id org_id now later =
      let value = live_row d user_id org_id in
      let missed : Option LiveMembership × MemberCache =
        (value, put c user_id org_id (some (record { value = value; at = later }))) in
      elim (c user_id org_id) [
        | none ↦ missed
        | some hit ↦ if ltb (now - hit.at) cache_ttl then (hit.value, c) else missed
      ]

  -- The result is the role that the handler sees, `none` where the guard does not look.
  unfoldable pub can_activate :
      Data T
      → MemberCache
      → ℕ
      → ℕ
      → Route
      → Option AccessToken
      → MemberCache × Result Denial (Option OrgRole)
  can_activate d c now later route token =
      if not route.is_http
      then (c, ok none)
      else if route.is_public
      then (c, ok none)
      else elim token [
        | none ↦ (c, err unauthenticated)
        | some auth ↦ elim route.min_role [
          | none ↦ (c, err no_access_level)
          | some required ↦ elim auth.role [
            | none ↦ (c, err no_role)
            | some claimed ↦
                let (live, c') = current d c auth.sub auth.org_id now later in
                elim (judge required auth live) [
                  | err e ↦ (c', err e)
                  | ok role ↦ (c', ok (some role))
                ]
          ]
        ]
      ]

  -- The invalidation is in `finally`, so it also happens where the update fails.
  unfoldable pub bump_session_version : Data T → MemberCache → ℕ → ℕ → Data T × MemberCache
  bump_session_version d c user_id org_id = (
    record d {
      memberships =
          Memberships.update_many (λ m. m.user_id == user_id && m.org_id == org_id) bump_version
            (λ m. refl) d.memberships;
    },
    invalidate c user_id org_id,
  )

  pub invalidate_all : MemberCache → ℕ → List Membership → MemberCache
  invalidate_all c user_id [] = c
  invalidate_all c user_id (m ∷ ms) = invalidate_all (invalidate c user_id m.org_id) user_id ms

  unfoldable pub bump_all_sessions : Data T → MemberCache → ℕ → Data T × MemberCache
  unfolding invalidate_all
  bump_all_sessions d c user_id = (
    record d {
      memberships =
          Memberships.update_many (λ m. m.user_id == user_id) bump_version (λ m. refl)
            d.memberships;
    },
    invalidate_all c user_id (Memberships.find_many (λ m. m.user_id == user_id) 100 d.memberships),
  )
