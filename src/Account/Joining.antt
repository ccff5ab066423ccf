-- ===== src/Account/Joining.antt =====
-- An invitation is accepted once.
use mathlib.Core.Path.{subst}
use godeye.Account.Spent.{Join, run_joins, IsSpent, run_joins-IsSpent, spent-refused}
use godeye.Prelude.{
  List, sym, ap, ◌∙◌, ℕ, ◌≡◌, refl, false, none, some, arith, ◌==◌, Option-cases, inl, inr, ok, err,
  Result-cases,
}
use godeye.Auth.Model.{Invitation, Tables, Data}
use godeye.Auth.Refresh.{Random, Session, create_session, new_token}
use godeye.Auth.Login.{Factors, Server}
use godeye.Account.{
  invitation_invalid, accept, JoinInput, valid_invitation, mark_accepted, invited, join_factor,
  known_user, new_user, joining_user, join, accept_invitation,
}

module _ (T : Tables) (f : Factors) where
  open T use {
    users as Users, memberships as Memberships, invitations as Invitations,
    refresh_tokens as Tokens,
  }

  -- The unique index on `tokenHash`.
  abbrev pub IsUniqueToken : Invitations.Rows → Type 0
  IsUniqueToken rows =
      (j k : ℕ) (r s : Invitation)
      → Invitations.find_unique rows j ≡ some r
      → Invitations.find_unique rows k ≡ some s
      → r.token_hash ≡ s.token_hash
      → j ≡ k

  valid_invitation-found :
      (d : Data T) (now token : ℕ) (i : Invitation)
      → valid_invitation T f d now token ≡ ok i
      → Invitations.find_first (λ x. x.token_hash == f.sha256 token) d.invitations ≡ some i
  unfolding valid_invitation
  valid_invitation-found d now token i e =
      elim (Option-cases
        (Invitations.find_first (λ x. x.token_hash == f.sha256 token) d.invitations)) [
          | inl missing ↦ ground arith
          | inr (j, found) ↦ ground arith
        ]

  -- Choosing the user writes no invitation where it succeeds.
  invitations-joining :
      (s : Server T) (now : ℕ) (i : Invitation) (input : JoinInput) (user_id : ℕ)
      → (joining_user T f s now i input).1 ≡ ok user_id
      → (joining_user T f s now i input).0.data_rows.invitations ≡ s.data_rows.invitations
  unfolding joining_user known_user new_user
  invitations-joining s now i input user_id good =
      elim (Option-cases (Users.find_first (λ u. u.email == i.email) s.data_rows.users)) [
        | inr (u, found) ↦
            elim (Result-cases (join_factor T f s.used_codes now u input.mfa_code).1) [
              | inl (x, bad) ↦ ground arith
              | inr (done, shown) ↦ ground arith
            ]
        | inl nobody ↦
            elim (Option-cases (
              Users.create
                (record {
                  id = input.new_user_id;
                  email = i.email;
                  password_hash = f.hash_password input.password;
                  mfa_enabled = false;
                  mfa_secret = none;
                })
                s.data_rows.users)) [ inl failed ↦ ground arith | inr (rows, made) ↦ ground arith ]
      ]

  join-marks :
      (s s' : Server T) (now : ℕ) (i : Invitation) (input : JoinInput) (user_id : ℕ)
      (random : Random) (session : Session)
      → join T f s now i input user_id random ≡ (s', ok session)
      → (s'.data_rows.invitations
          ≡ Invitations.update_many
              (λ x. x.id == i.id)
              (accept now)
              (λ x. refl)
              s.data_rows.invitations)
        × (session.org_id ≡ i.org_id)
        × (session.role ≡ i.role)
        × (session.user_id ≡ user_id)
  unfolding join mark_accepted create_session
  join-marks s s' now i input user_id random session e =
      elim (Option-cases (
        Memberships.create (invited T f i user_id input.new_membership_id)
          s.data_rows.memberships)) [
            | inl failed ↦ ground arith
            | inr (rows, made) ↦
                elim (Option-cases (
                  Tokens.create (new_token T f.sha256 now user_id i.org_id none random)
                    s.data_rows.refresh_tokens)) [
                      | inl failed ↦ ground arith
                      | inr (tokens, opened) ↦
                          (ground arith, ground arith, ground arith, ground arith)
                    ]
          ]

  -- What is accepted is spent.
  accepted-IsSpent :
      (d : Data T) (rows : Invitations.Rows) (now later token : ℕ) (i : Invitation)
      → IsUniqueToken d.invitations
      → valid_invitation T f d now token ≡ ok i
      → rows ≡ Invitations.update_many (λ x. x.id == i.id) (accept later) (λ x. refl) d.invitations
      → IsSpent T f (f.sha256 token) rows
  accepted-IsSpent d rows now later token i unique good after k r at of =
      let found = valid_invitation-found d now token i good in
      let (hit, there) =
        Invitations.find_first-sound (λ x. x.token_hash == f.sha256 token) d.invitations i found in
      let marked =
        Invitations.find_unique-update_many (λ x. x.id == i.id) (accept later) (λ x. refl)
          d.invitations k in
      let now_at = ap (λ t. Invitations.find_unique t k) (sym after) ∙ at in
      elim (Option-cases (Invitations.find_unique d.invitations k)) [
        | inl gone ↦ ground arith
        | inr (r0, was) ↦
            let key = Invitations.find_unique-key d.invitations k r0 was in
            let only = unique k i.id r0 i was there in ground arith
      ]

  -- An invitation works once, with the unique index on its token: a call that accepts it signs in to
  -- the inviting workspace in the invited role, and whatever calls come after it that accept
  -- invitations, a further one with the same token is refused and changes nothing.
  pub accept_invitation-once :
      (s s' : Server T) (now later : ℕ) (input input' : JoinInput) (random random' : Random)
      (session : Session) (joins : List Join)
      → IsUniqueToken s.data_rows.invitations
      → accept_invitation T f s now input random ≡ (s', ok session)
      → input'.token ≡ input.token
      → ((i : Invitation) × (valid_invitation T f s.data_rows now input.token ≡ ok i)
          × (session.org_id ≡ i.org_id)
          × (session.role ≡ i.role))
        × (accept_invitation T f (run_joins T f s' joins) later input' random'
            ≡ (run_joins T f s' joins, err invitation_invalid))
  unfolding accept_invitation
  accept_invitation-once s s' now later input input' random random' session joins unique e same =
      elim (Result-cases (valid_invitation T f s.data_rows now input.token)) [
        | inl (x, bad) ↦ ground arith
        | inr (i, good) ↦ elim (Result-cases (joining_user T f s now i input).1) [
          | inl (x, bad) ↦ ground arith
          | inr (user_id, chosen) ↦
              let s1 = (joining_user T f s now i input).0 in
              let joined : join T f s1 now i input user_id random ≡ (s', ok session) =
                ground arith in
              let (marks, org, role, who) =
                join-marks s1 s' now i input user_id random session joined in
              let spent =
                accepted-IsSpent s.data_rows s'.data_rows.invitations now now input.token i unique
                  good (ground (arith, marks, invitations-joining s now i input user_id chosen)) in
              let after = run_joins-IsSpent T f joins (f.sha256 input.token) s' spent in
              (
                (i, good, org, role),
                spent-refused T f (run_joins T f s' joins) later input' random' (
                    subst
                      (λ t. IsSpent T f (f.sha256 t) (run_joins T f s' joins).data_rows.invitations)
                      (sym same) after),
              )
        ]
      ]
