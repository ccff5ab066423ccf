-- ===== src/Connections/Examples.antt =====
-- Concrete flows, on which the theorems about the connection of channels are applied.
use godeye.Prelude.{ℕ, ◌+◌, ◌*◌, ◌≡◌, ◌≢◌, refl, true, none, some, List, [], ◌∷◌, arith, ok}
use godeye.Db.ListTable.{list_table}
use godeye.Auth.Model.{OrgRole, Membership}
use godeye.Auth.Examples.{auth_tables}
use godeye.Connections.State.{
  Provider, StateClaims, StateStore, Cookies, StateRandom, ConsumedState, issue, consume, is_bound,
  take_state, Provider-discrete,
}
use godeye.Connections.Channels.{Channel, Platform, Account, channel_key, channel_clash}
use godeye.Publishing.Model.{ConnectionStatus}
use godeye.Connections.Callback.{Site}
use godeye.Connections.Single.{StateCall, run_states, consume-once}

channel-covers : (r s : Channel) → channel_key r ≡ channel_key s → channel_clash r s ≡ true
channel-covers r s h = ground arith

abbrev digest : ℕ → ℕ
digest nonce = nonce + 1000

abbrev no_states : StateStore
no_states jti = none

abbrev no_cookies : Cookies
no_cookies provider = none

abbrev drawn : StateRandom
drawn = record { jti = 5; nonce = 6; verifier = 7 }

abbrev drawn_next : StateRandom
drawn_next = record { jti = 8; nonce = 9; verifier = 7 }

abbrev begun_states : StateStore
unfolding issue
begun_states = (issue digest no_states no_cookies 100 true drawn Provider.tiktok 8 1).0

abbrev begun_cookies : Cookies
unfolding issue
begun_cookies = (issue digest no_states no_cookies 100 true drawn Provider.tiktok 8 1).1

abbrev claims : StateClaims
claims = record { org_id = 8; sub = 1; provider = Provider.tiktok; jti = 5; nch = 1006 }

abbrev consumed : ConsumedState
consumed = record { org_id = 8; user_id = 1; code_verifier = some 7 }

abbrev left_states : StateStore
unfolding consume
left_states = (consume digest begun_states begun_cookies 200 true Provider.tiktok (some claims)).0

abbrev left_cookies : Cookies
unfolding consume
left_cookies = (consume digest begun_states begun_cookies 200 true Provider.tiktok (some claims)).1

abbrev others : List StateCall
others =
    StateCall.issues no_cookies 300 true drawn_next Provider.meta 8 2
    ∷ StateCall.consumes begun_cookies 300 true Provider.tiktok (some claims)
    ∷ []

consume-once_example :
    (is_bound digest begun_cookies Provider.tiktok 1006 ≡ true)
    × (consumed.org_id ≡ claims.org_id)
    × (consumed.user_id ≡ claims.sub)
    × ((again : ConsumedState)
        → (consume digest
            (run_states digest left_states others)
            begun_cookies
            400
            true
            Provider.tiktok
            (some claims)).2
          ≢ ok again)
unfolding consume issue take_state Provider-discrete mathlib.Core.Bool.decide
consume-once_example =
    consume-once digest begun_states left_states begun_cookies left_cookies begun_cookies 200 400
      true true Provider.tiktok Provider.tiktok claims consumed others refl refl

abbrev page : Channel
page = record {
  id = 3;
  org_id = 8;
  platform = Platform.tiktok;
  external_id = 60;
  display_name = 61;
  encrypted_credentials = 62;
  status = ConnectionStatus.active;
  last_error = none;
  last_error_at = none;
  last_checked_at = 0;
  metadata = none;
  expires_at = none;
}

abbrev same_page : Account
same_page = record {
  platform = Platform.tiktok;
  external_id = 60;
  display_name = 64;
  credentials = 65;
  metadata = none;
  expires_at = some 5000;
}

abbrev seal : ℕ → ℕ → ℕ
seal org_id credentials = credentials + 100 * org_id

abbrev boss : Membership
boss = record { id = 2; user_id = 1; org_id = 8; role = OrgRole.owner; session_version = 0 }

abbrev site : Site auth_tables digest (list_table channel_key channel_clash channel-covers) seal
unfolding list_table
site = record {
  accounts = record {
    users = ([], tt);
    refresh_tokens = ([], tt);
    resets = ([], tt);
    codes = ([], tt);
    memberships = (boss ∷ [], (refl, tt));
    invitations = ([], tt);
  };
  channels = (page ∷ [], (refl, tt));
  states = begun_states;
  pending = λ token. none;
}
