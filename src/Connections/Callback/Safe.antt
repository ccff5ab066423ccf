-- ===== src/Connections/Callback/Safe.antt =====
-- Who may connect a channel by a callback, and to which workspace.
use godeye.Prelude.{Option, ℕ, ◌≡◌, ◌≢◌, true, ◌&&◌, some, arith, ◌==◌}
use godeye.Db.{Table}
use godeye.Auth.Model as A
use godeye.Auth.Model.{OrgRole, Membership}
use godeye.Members.{find_member}
use godeye.Connections.State.{Provider, StateClaims, Cookies, is_bound}
use godeye.Connections.Channels.{Channel, channel_key, channel_clash, remove_channel}
use godeye.Connections.Callback.{may_connect, Site}

module _ (T : A.Tables) (hash : ℕ → ℕ) (C : Table Channel channel_key channel_clash)
    (encrypt : ℕ → ℕ → ℕ) where
  -- A channel of another workspace is as it was.
  abbrev pub KeepsOthers : ℕ → C.Rows → C.Rows → Type 0
  KeepsOthers org_id rows rows' =
      (k : ℕ) (c : Channel)
      → C.find_unique rows k ≡ some c
      → c.org_id ≢ org_id
      → C.find_unique rows' k ≡ some c

  remove-KeepsOthers :
      (rows : C.Rows) (org_id id : ℕ)
      → KeepsOthers org_id rows (remove_channel C encrypt rows org_id id).0
  unfolding remove_channel
  remove-KeepsOthers rows org_id id k c had other =
      let after = C.find_unique-delete_many (λ r. r.id == id && r.org_id == org_id) rows k c had in
      ground arith

  -- Who passes the checks of a callback.
  abbrev pub MayConnect :
      Site T hash C encrypt → Cookies → Provider → Option StateClaims → ℕ → Type 0
  MayConnect s cookies provider claims org_id =
      (cl : StateClaims) × (m : Membership) × (claims ≡ some cl)
      × (is_bound hash cookies provider cl.nch ≡ true)
      × (cl.org_id ≡ org_id)
      × (find_member T hash s.accounts cl.org_id cl.sub ≡ some m)
      × (may_connect m.role ≡ true)
