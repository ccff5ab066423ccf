-- ===== src/Connections/Callback.antt =====
-- apps/api/src/connections/connections.service.ts: the return trips of the flows. What a platform
-- answers to the exchange of a code is an argument, `none` where the call throws.
pub mod Safe
use godeye.Prelude.{
  map, ℕ, suc, ◌+◌, ◌*◌, refl, Bool, true, false, not, ◌&&◌, ◌||◌, Option, none, some, List, [],
  ◌∷◌, ◌==◌, ltb, if◌then◌else◌, Result, ok, err,
}
use godeye.Db.{Table}
use godeye.Auth.Model as A
use godeye.Auth.Model.{OrgRole, Membership}
use godeye.Members.{find_member}
use godeye.Connections.State.{
  Provider, StateClaims, ConsumedState, StateStore, Cookies, StateRefusal, consume,
}
use godeye.Connections.Channels.{
  Channel, channel_key, channel_clash, Account, ChannelRefusal, current_error, upsert_connection,
}

pub data CallbackRefusal : Type 0 where
  state_refused : StateRefusal → CallbackRefusal
  channel_refused : ChannelRefusal → CallbackRefusal
  no_longer_member admin_required exchange_failed authorization_spent : CallbackRefusal

abbrev pub may_connect : OrgRole → Bool
may_connect OrgRole.owner = true
may_connect OrgRole.admin = true
may_connect _ = false

-- The pair that X's first leg parks, with the time at which it is forgotten.
pub record PendingX : Type 0 where
  pub org_id : ℕ
  pub user_id : ℕ
  pub token_secret : ℕ
  pub expires_at : ℕ

abbrev pub PendingStore : Type 0
PendingStore = ℕ → Option PendingX

abbrev pub put_pending : PendingStore → ℕ → Option PendingX → PendingStore
put_pending store token p k = if k == token then p else store k

abbrev pub x_pending_ttl : ℕ
x_pending_ttl = 10 * 60 * 1000

module _ (T : A.Tables) (hash : ℕ → ℕ) (C : Table Channel channel_key channel_clash)
    (encrypt : ℕ → ℕ → ℕ) where
  -- The rows, the store of states, and the store of X's pairs.
  pub record Site : Type 0 where
    pub accounts : A.Data T
    pub channels : C.Rows
    pub states : StateStore
    pub pending : PendingStore

  unfoldable pub begin_callback :
      Site
      → Cookies
      → ℕ
      → (reachable : Bool) → Provider
      → Option StateClaims
      → Site × Result CallbackRefusal ConsumedState
  begin_callback s cookies now reachable provider claims =
      let (states, left, consumed) = consume hash s.states cookies now reachable provider claims in
      let s' : Site = record s { states = states } in
      elim consumed [
        | err e ↦ (s', err (state_refused e))
        | ok state ↦ elim (find_member T hash s.accounts state.org_id state.user_id) [
          | none ↦ (s', err no_longer_member)
          | some m ↦ if not (may_connect m.role) then (s', err admin_required) else (s', ok state)
        ]
      ]

  -- One account after the other; a refusal leaves those before it connected. The ids are those of
  -- new rows, and `within n` is the answer on the limit before the n-th.
  pub store_accounts :
      C.Rows → ℕ → ℕ → (ℕ → Bool) → (ℕ → ℕ) → ℕ → List Account → C.Rows × Result CallbackRefusal ℕ
  store_accounts rows now org_id within id n [] = (rows, ok n)
  store_accounts rows now org_id within id n (a ∷ rest) =
      let (rows', stored) = upsert_connection C encrypt rows now org_id (within n) (id n) a in
      let after = store_accounts rows' now org_id within id (suc n) rest in
      elim stored [ err e ↦ (rows', err (channel_refused e)) | ok channel ↦ after ]

  -- The callbacks of Reddit, LinkedIn, TikTok and Instagram, which connect one account, and of
  -- Meta, which connects the pages.
  unfoldable pub oauth_callback :
      Site
      → Cookies
      → ℕ
      → (reachable : Bool) → Provider
      → Option StateClaims
      → (exchange : ConsumedState → Option (List Account)) → (ℕ → Bool)
      → (ℕ → ℕ)
      → Site × Result CallbackRefusal ℕ
  unfolding store_accounts
  oauth_callback s cookies now reachable provider claims exchange within id =
      let (s', begun) = begin_callback s cookies now reachable provider claims in
      elim begun [
        | err e ↦ (s', err e)
        | ok state ↦ elim (exchange state) [
          | none ↦ (s', err exchange_failed)
          | some accounts ↦
              let (channels, stored) =
                store_accounts s'.channels now state.org_id within id 0 accounts in
              (record s' { channels = channels }, stored)
        ]
      ]

  -- Telegram, Discord and X with credentials of the customer's own: `validated` is what the platform
  -- answers to them.
  unfoldable pub connect_direct :
      Site
      → ℕ
      → ℕ
      → (validated : Option Account) → (within : Bool) → (id : ℕ)
      → Site × Result CallbackRefusal Channel
  connect_direct s now org_id validated within id = elim validated [
    | none ↦ (s, err exchange_failed)
    | some a ↦
        let (channels, stored) = upsert_connection C encrypt s.channels now org_id within id a in
        let s' : Site = record s { channels = channels } in
        elim stored [ err e ↦ (s', err (channel_refused e)) | ok channel ↦ (s', ok channel) ]
  ]

  -- What the page shows of a workspace, 200 channels at most, each with the error worth showing.
  unfoldable pub list_channels : Site → ℕ → ℕ → List (Channel × Option ℕ)
  list_channels s now org_id =
      map (λ c. (c, current_error now c)) (C.find_many (λ c. c.org_id == org_id) 200 s.channels)

  unfoldable pub x_authorize : Site → ℕ → ℕ → ℕ → ℕ → ℕ → Site
  x_authorize s now org_id user_id token token_secret = record s {
    pending = put_pending s.pending token (
        some (record {
          org_id = org_id;
          user_id = user_id;
          token_secret = token_secret;
          expires_at = now + x_pending_ttl;
        }));
  }

  -- `xCallback` reads the pair first, and deletes it in a call of its own.
  unfoldable pub x_read : Site → ℕ → ℕ → Result CallbackRefusal PendingX
  x_read s now token = elim (s.pending token) [
    | none ↦ err authorization_spent
    | some p ↦ if ltb now p.expires_at then ok p else err authorization_spent
  ]

  unfoldable pub x_finish :
      Site
      → ℕ
      → ℕ
      → PendingX
      → (exchange : PendingX → Option Account) → (within : Bool) → (id : ℕ)
      → Site × Result CallbackRefusal ℕ
  x_finish s now token p exchange within id =
      let s' : Site = record s { pending = put_pending s.pending token none } in
      elim (exchange p) [
        | none ↦ (s', err exchange_failed)
        | some a ↦
            let (channels, stored) =
              upsert_connection C encrypt s'.channels now p.org_id within id a in
            let s2 : Site = record s' { channels = channels } in
            elim stored [ err e ↦ (s2, err (channel_refused e)) | ok channel ↦ (s2, ok 1) ]
      ]

  unfoldable pub x_callback :
      Site
      → ℕ
      → ℕ
      → (exchange : PendingX → Option Account) → (within : Bool) → (id : ℕ)
      → Site × Result CallbackRefusal ℕ
  x_callback s now token exchange within id = elim (x_read s now token) [
    | err e ↦ (s, err e)
    | ok p ↦ x_finish s now token p exchange within id
  ]
