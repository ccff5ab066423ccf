-- ===== src/Account/Spent.antt =====
-- Invitations that are spent stay spent, whatever invitations are accepted.
use godeye.Prelude.{
  false, ℕ, ◌≡◌, ◌⊎◌, refl, true, none, some, List, [], ◌∷◌, arith, ap, sym, ◌∙◌, ◌==◌, is_some,
  Option-cases, Bool-cases, inl, inr, err, Result-cases,
}
use mathlib.Core.Path.{subst}
use godeye.Auth.Model.{Invitation, Tables}
use godeye.Auth.Refresh.{Random, create_session}
use godeye.Auth.Login.{Factors, Server}
use godeye.Members.{find_member}
use godeye.Account.{
  invitation_invalid, accept, JoinInput, valid_invitation, mark_accepted, invited, join_factor,
  known_user, new_user, joining_user, join, accept_invitation,
}

-- A call that accepts an invitation.
pub record Join : Type 0 where
  pub now : ℕ
  pub input : JoinInput
  pub random : Random

module _ (T : Tables) (f : Factors) where
  open T use {users as Users, memberships as Memberships, invitations as Invitations}

  unfoldable pub run_joins : Server T → List Join → Server T
  unfolding accept_invitation
  run_joins s [] = s
  run_joins s (j ∷ joins) = run_joins (accept_invitation T f s j.now j.input j.random).0 joins

  -- Every invitation with that token hash is accepted.
  abbrev pub IsSpent : ℕ → Invitations.Rows → Type 0
  IsSpent h rows =
      (k : ℕ) (r : Invitation)
      → Invitations.find_unique rows k ≡ some r
      → r.token_hash ≡ h
      → is_some r.accepted_at ≡ true

  -- The rows are as they were, or some were marked as accepted.
  abbrev pub IsMarked : Invitations.Rows → Invitations.Rows → Type 0
  IsMarked rows rows' =
      (rows' ≡ rows)
      ⊎ ((now id : ℕ) × (rows'
            ≡ Invitations.update_many (λ x. x.id == id) (accept now) (λ x. refl) rows))

  marked-IsSpent :
      (h : ℕ) (rows rows' : Invitations.Rows)
      → IsMarked rows rows'
      → IsSpent h rows
      → IsSpent h rows'
  marked-IsSpent h rows rows' (inl same) spent k r at of =
      subst (IsSpent h) (sym same) spent k r at of
  marked-IsSpent h rows rows' (inr (now, id, written)) spent k r at of =
      let after =
        Invitations.find_unique-update_many (λ x. x.id == id) (accept now) (λ x. refl) rows k in
      let there = ap (λ t. Invitations.find_unique t k) (sym written) ∙ at in
      elim (Option-cases (Invitations.find_unique rows k)) [
        | inl gone ↦ ground arith
        | inr (r0, was) ↦ elim (Bool-cases (r0.id == id)) [
          | inl this ↦ ground arith
          | inr other ↦ let before = spent k r0 was in ground arith
        ]
      ]

  joining-IsMarked :
      (s : Server T) (now : ℕ) (i : Invitation) (input : JoinInput)
      → IsMarked s.data_rows.invitations (joining_user T f s now i input).0.data_rows.invitations
  unfolding joining_user known_user new_user mark_accepted
  joining-IsMarked s now i input =
      elim (Option-cases (Users.find_first (λ u. u.email == i.email) s.data_rows.users)) [
        | inr (u, found) ↦ elim (Bool-cases (f.verify_password u.password_hash input.password)) [
          | inr wrong ↦ inl (ground arith)
          | inl right ↦ elim (Result-cases (join_factor T f s.used_codes now u input.mfa_code).1) [
            | inl (x, bad) ↦ inl (ground arith)
            | inr (done, shown) ↦
                elim (Bool-cases (is_some (find_member T f.sha256 s.data_rows i.org_id u.id))) [
                  | inl member ↦ inr (now, i.id, ground arith)
                  | inr stranger ↦ inl (ground arith)
                ]
          ]
        ]
        | inl nobody ↦
            inl
              (elim (Option-cases (
                Users.create
                  (record {
                    id = input.new_user_id;
                    email = i.email;
                    password_hash = f.hash_password input.password;
                    mfa_enabled = false;
                    mfa_secret = none;
                  })
                  s.data_rows.users)) [
                    | inl failed ↦ ground arith
                    | inr (rows, made) ↦ ground arith
                  ])
      ]

  join-IsMarked :
      (s : Server T) (now : ℕ) (i : Invitation) (input : JoinInput) (user_id : ℕ) (random : Random)
      → IsMarked s.data_rows.invitations
          (join T f s now i input user_id random).0.data_rows.invitations
  unfolding join mark_accepted create_session
  join-IsMarked s now i input user_id random =
      let m = invited T f i user_id input.new_membership_id in
      elim (Option-cases (Memberships.create m s.data_rows.memberships)) [
        | inl failed ↦ inl (ground arith)
        | inr (rows, made) ↦
            let d = mark_accepted T f (record s.data_rows { memberships = rows }) now i.id in
            elim (Result-cases (create_session T f.sha256 d now m none random).1) [
              | inl (x, bad) ↦ inr (now, i.id, ground arith)
              | inr (opened, good) ↦ inr (now, i.id, ground arith)
            ]
      ]

  accept_invitation-IsSpent :
      (h : ℕ) (s : Server T) (now : ℕ) (input : JoinInput) (random : Random)
      → IsSpent h s.data_rows.invitations
      → IsSpent h (accept_invitation T f s now input random).0.data_rows.invitations
  unfolding accept_invitation
  accept_invitation-IsSpent h s now input random spent =
      elim (Result-cases (valid_invitation T f s.data_rows now input.token)) [
        | inl (x, bad) ↦
            subst (λ m. IsSpent h m.0.data_rows.invitations)
              (let e : (s, err x) ≡ accept_invitation T f s now input random = ground arith in e)
              spent
        | inr (i, good) ↦
            let s1 = (joining_user T f s now i input).0 in
            let between =
              marked-IsSpent h s.data_rows.invitations s1.data_rows.invitations
                (joining-IsMarked s now i input) spent in
            elim (Result-cases (joining_user T f s now i input).1) [
              | inl (x, bad) ↦
                  subst (λ m. IsSpent h m.0.data_rows.invitations)
                    (let e : (s1, err x) ≡ accept_invitation T f s now input random =
                        ground arith in
                      e)
                    between
              | inr (user_id, chosen) ↦
                  subst (λ m. IsSpent h m.0.data_rows.invitations)
                    (let e : join T f s1 now i input user_id random
                          ≡ accept_invitation T f s now input random =
                        ground arith in
                      e)
                    (marked-IsSpent h s1.data_rows.invitations
                      (join T f s1 now i input user_id random).0.data_rows.invitations
                      (join-IsMarked s1 now i input user_id random) between)
            ]
      ]

  pub run_joins-IsSpent :
      (joins : List Join) (h : ℕ) (s : Server T)
      → IsSpent h s.data_rows.invitations
      → IsSpent h (run_joins s joins).data_rows.invitations
  unfolding run_joins
  run_joins-IsSpent [] h s spent = spent
  run_joins-IsSpent (j ∷ joins) h s spent =
      run_joins-IsSpent joins h (accept_invitation T f s j.now j.input j.random).0
        (accept_invitation-IsSpent h s j.now j.input j.random spent)

  pub spent-refused :
      (s : Server T) (now : ℕ) (input : JoinInput) (random : Random)
      → IsSpent (f.sha256 input.token) s.data_rows.invitations
      → accept_invitation T f s now input random ≡ (s, err invitation_invalid)
  unfolding accept_invitation valid_invitation
  spent-refused s now input random spent =
      elim (Option-cases (
        Invitations.find_first (λ x. x.token_hash == f.sha256 input.token)
          s.data_rows.invitations)) [
            | inl missing ↦ ground arith
            | inr (i, found) ↦
                let (hit, there) =
                  Invitations.find_first-sound (λ x. x.token_hash == f.sha256 input.token)
                    s.data_rows.invitations i found in
                let done = spent i.id i there (ground arith) in ground arith
          ]
