-- ===== src/Members/Owners.antt =====
-- Owners stay owners, and removal ends what a member had.
use godeye.Prelude.{
  ℕ, ◌≡◌, ◌≢◌, ◌<◌, ◌∙◌, ap, refl, Bool, true, ◌&&◌, none, some, List, [], ◌∷◌, arith, ◌==◌,
  is_some, ok, Option-cases, inl, inr,
}
use godeye.Auth.Model.{OrgRole, Membership, RefreshToken, Invitation, Tables, Data}
use godeye.Auth.Refresh.{revoke}
use godeye.Members.{
  Caller, role_rank, refuses, with_role, find_member, scoped_where, revoke_sessions, change_role,
  remove_refused, remove, invite, revoke_invitation, new_invitation, pending_where, retire,
}

pub data MemberCall : Type 0 where
  changes_role : (target_id : ℕ) → OrgRole → MemberCall
  removes : (target_id : ℕ) → MemberCall
  invites : (within : Bool) (email : ℕ) → OrgRole → (row_id token : ℕ) → MemberCall
  revokes : (id : ℕ) → MemberCall

owner_refused : (r : OrgRole) → refuses r OrgRole.owner ≡ true
owner_refused OrgRole.viewer = refl
owner_refused OrgRole.editor = refl
owner_refused OrgRole.admin = refl
owner_refused OrgRole.owner = refl

module _ (T : Tables) (hash : ℕ → ℕ) where
  open T use {memberships as Memberships, refresh_tokens as Tokens, invitations as Invitations}

  unfoldable pub member_step : Data T → ℕ → Caller → MemberCall → Data T
  member_step d now caller (changes_role target_id role) =
      (change_role T hash d now caller target_id role).0
  member_step d now caller (removes target_id) = (remove T hash d now caller target_id).0
  member_step d now caller (invites within email role row_id token) =
      (invite T hash d now caller within email role row_id token).0
  member_step d now caller (revokes id) = (revoke_invitation T hash d now caller id).0

  unfoldable pub run_members : Data T → List (ℕ × Caller × MemberCall) → Data T
  run_members d [] = d
  run_members d ((now, caller, call) ∷ calls) = run_members (member_step d now caller call) calls

  -- The row `k` is the membership `m` of an owner.
  abbrev pub IsOwner : Data T → ℕ → Membership → Type 0
  IsOwner d k m = (Memberships.find_unique d.memberships k ≡ some m) × (m.role ≡ OrgRole.owner)

  change_role-keeps :
      (d : Data T) (now : ℕ) (caller : Caller) (target_id : ℕ) (role : OrgRole) (k : ℕ)
      (m : Membership)
      → IsOwner d k m
      → IsOwner (change_role T hash d now caller target_id role).0 k m
  unfolding change_role find_member revoke_sessions
  change_role-keeps d now caller target_id role k m (had, boss) =
      elim (Option-cases (find_member T hash d caller.org_id target_id)) [
        | inl missing ↦ (ground arith, boss)
        | inr (target, found) ↦
            let (hit, there) =
              Memberships.find_first-sound
                (λ x. x.user_id == target_id && x.org_id == caller.org_id) d.memberships target
                found in
            let patched =
              Memberships.find_unique-update_many (λ x. x.id == target.id) (with_role role)
                (λ x. refl) d.memberships k in
            (
              ground (
                arith,
                patched,
                there,
                owner_refused caller.role,
                Memberships.find_unique-key d.memberships k m had,
              ),
              boss,
            )
      ]

  remove-keeps :
      (d : Data T) (now : ℕ) (caller : Caller) (target_id k : ℕ) (m : Membership)
      → IsOwner d k m
      → IsOwner (remove T hash d now caller target_id).0 k m
  unfolding remove find_member revoke_sessions remove_refused
  remove-keeps d now caller target_id k m (had, boss) =
      elim (Option-cases (find_member T hash d caller.org_id target_id)) [
        | inl missing ↦ (ground arith, boss)
        | inr (target, found) ↦
            let (hit, there) =
              Memberships.find_first-sound
                (λ x. x.user_id == target_id && x.org_id == caller.org_id) d.memberships target
                found in
            let left =
              Memberships.find_unique-delete_many (λ x. x.id == target.id) d.memberships k m had in
            elim (Option-cases (remove_refused caller target_id target)) [
              | inr (refusal, bad) ↦ (ground (arith, bad), boss)
              | inl fine ↦ (
                ground (
                  arith,
                  left,
                  there,
                  fine,
                  owner_refused caller.role,
                  Memberships.find_unique-key d.memberships k m had,
                ),
                boss,
              )
            ]
      ]

  memberships-invite :
      (d : Data T) (now : ℕ) (caller : Caller) (within : Bool) (email : ℕ) (role : OrgRole)
      (row_id token : ℕ)
      → (invite T hash d now caller within email role row_id token).0.memberships ≡ d.memberships
  unfolding invite
  memberships-invite d now caller within email role row_id token =
      elim (Option-cases (
        Invitations.create (new_invitation T hash now caller.org_id email role row_id token) (
          Invitations.update_many (pending_where T hash caller.org_id email) (retire now)
            (λ i. refl) d.invitations))) [
              | inl failed ↦ ground arith
              | inr (rows, made) ↦ ground arith
            ]

  memberships-revoke :
      (d : Data T) (now : ℕ) (caller : Caller) (id : ℕ)
      → (revoke_invitation T hash d now caller id).0.memberships ≡ d.memberships
  unfolding revoke_invitation
  memberships-revoke d now caller id =
      elim (Option-cases
        (Invitations.find_first (λ i. i.id == id && i.org_id == caller.org_id) d.invitations)) [
          | inl missing ↦ ground arith
          | inr (i, found) ↦ ground arith
        ]

  -- An owner stays the owner: whatever callers of whatever roles do, one after the other, to roles,
  -- members and invitations, the membership of an owner is the same afterwards.
  pub owner_kept :
      (calls : List (ℕ × Caller × MemberCall)) (d : Data T) (k : ℕ) (m : Membership)
      → Memberships.find_unique d.memberships k ≡ some m
      → m.role ≡ OrgRole.owner
      → Memberships.find_unique (run_members d calls).memberships k ≡ some m
  unfolding run_members member_step
  owner_kept [] d k m had boss = had
  owner_kept ((now, caller, changes_role target_id role) ∷ calls) d k m had boss =
      owner_kept calls (change_role T hash d now caller target_id role).0 k m
        (change_role-keeps d now caller target_id role k m (had, boss)).0 boss
  owner_kept ((now, caller, removes target_id) ∷ calls) d k m had boss =
      owner_kept calls (remove T hash d now caller target_id).0 k m
        (remove-keeps d now caller target_id k m (had, boss)).0 boss
  owner_kept ((now, caller, invites within email role row_id token) ∷ calls) d k m had boss =
      owner_kept calls (invite T hash d now caller within email role row_id token).0 k m
        (ap (λ t. Memberships.find_unique t k)
            (memberships-invite d now caller within email role row_id token)
          ∙ had)
        boss
  owner_kept ((now, caller, revokes id) ∷ calls) d k m had boss =
      owner_kept calls (revoke_invitation T hash d now caller id).0 k m
        (ap (λ t. Memberships.find_unique t k) (memberships-revoke d now caller id) ∙ had) boss

  -- A member whose removal succeeds is not an owner. The membership is gone, and every refresh
  -- token of the user for that workspace is revoked.
  pub remove-ends :
      (d : Data T) (now : ℕ) (caller : Caller) (target_id : ℕ) (target : Membership)
      → find_member T hash d caller.org_id target_id ≡ some target
      → (remove T hash d now caller target_id).1 ≡ ok tt
      → (target.role ≢ OrgRole.owner)
        × (Memberships.find_unique (remove T hash d now caller target_id).0.memberships target.id
            ≡ none)
        × ((k : ℕ) (r : RefreshToken)
            → Tokens.find_unique (remove T hash d now caller target_id).0.refresh_tokens k ≡ some r
            → r.user_id ≡ target_id
            → r.org_id ≡ some caller.org_id
            → is_some r.revoked_at ≡ true)
  unfolding remove remove_refused revoke_sessions find_member
  remove-ends d now caller target_id target found done =
      let (hit, there) =
        Memberships.find_first-sound (λ x. x.user_id == target_id && x.org_id == caller.org_id)
          d.memberships target found in
      elim (Option-cases (remove_refused caller target_id target)) [
        | inr (refusal, bad) ↦ ground (arith, bad)
        | inl fine ↦ (
          λ boss. ground (arith, fine, owner_refused caller.role),
          ground (
            arith,
            fine,
            Memberships.find_unique-delete_many (λ x. x.id == target.id) d.memberships target.id
                target there,
          ),
          λ k r got of scoped. elim (Option-cases (Tokens.find_unique d.refresh_tokens k)) [
            | inl gone ↦ ground (
              arith,
              fine,
              Tokens.find_unique-update_many (scoped_where T hash target_id caller.org_id)
                  (revoke now) (λ x. refl) d.refresh_tokens k,
            )
            | inr (r0, had) ↦ ground (
              arith,
              fine,
              Tokens.find_unique-update_many (scoped_where T hash target_id caller.org_id)
                  (revoke now) (λ x. refl) d.refresh_tokens k,
            )
          ],
        )
      ]

  -- An invitation that succeeds offers a role below the caller's, and is then the only invitation of
  -- the workspace for that address that can still be accepted.
  pub invite-single :
      (d : Data T) (now : ℕ) (caller : Caller) (within : Bool) (email : ℕ) (role : OrgRole)
      (row_id token : ℕ)
      → (invite T hash d now caller within email role row_id token).1 ≡ ok tt
      → (role_rank role < role_rank caller.role)
        × ((k : ℕ) (i : Invitation)
            → Invitations.find_unique
                (invite T hash d now caller within email role row_id token).0.invitations
                k
              ≡ some i
            → pending_where T hash caller.org_id email i ≡ true
            → i ≡ new_invitation T hash now caller.org_id email role row_id token)
  unfolding invite
  invite-single d now caller within email role row_id token done =
      let retired =
        Invitations.update_many (pending_where T hash caller.org_id email) (retire now) (λ i. refl)
          d.invitations in
      elim (Option-cases (
        Invitations.create (new_invitation T hash now caller.org_id email role row_id token)
          retired)) [
            | inl failed ↦ ground arith
            | inr (rows, made) ↦ (
              ground arith,
              λ k i got open_still. elim (Option-cases (Invitations.find_unique d.invitations k)) [
                | inl gone ↦ ground (
                  arith,
                  Invitations.find_unique-create
                      (new_invitation T hash now caller.org_id email role row_id token) retired rows
                      k made,
                  Invitations.find_unique-update_many (pending_where T hash caller.org_id email)
                      (retire now) (λ x. refl) d.invitations k,
                )
                | inr (i0, had) ↦ ground (
                  arith,
                  Invitations.find_unique-create
                      (new_invitation T hash now caller.org_id email role row_id token) retired rows
                      k made,
                  Invitations.find_unique-update_many (pending_where T hash caller.org_id email)
                      (retire now) (λ x. refl) d.invitations k,
                )
              ],
            )
          ]
