-- ===== src/Auth/Login/Sound.antt =====
-- What a sign-in that succeeds has shown, and that a failed one is counted.
use godeye.Prelude.{
  ap, ◌∙◌, if◌then◌else◌, Option, ℕ, ◌≡◌, refl, true, ◌⊎◌, none, some, List, arith, ◌==◌,
  Option-cases, Bool-cases, inl, inr, ok, err, Result-cases,
}
use godeye.Auth.Model.{User, Tables, Refusal}
use godeye.Auth.Backoff.{Redis, Keys, assert_not_backed_off, record_failure, record_success}
use godeye.Auth.Codes.{redeem}
use godeye.Auth.Refresh.{Random, Session, create_session, first_membership, new_token}
use godeye.Auth.Login.{
  Factors, LoginRefusal, assert_valid_mfa_code, Server, LoginInput, find_user, second_factor,
  check_factor, open_session, login, mfa_required, not_signed_in,
}

module _ (T : Tables) (f : Factors) where
  open T use {users as Users, memberships as Memberships, refresh_tokens as Tokens}

  -- The second factor that was shown: a recovery code that was redeemed, or a code of the app.
  abbrev pub IsShown : Server T → ℕ → User → Option (List ℕ) → Type 0
  IsShown s now user mfa_code =
      (code : List ℕ) × (mfa_code ≡ some code)
      × (((redeem T f.verify_code f.upper s.data_rows now user.id code).1 ≡ true)
          ⊎ ((assert_valid_mfa_code f s.used_codes now user.mfa_secret code user.id).1 ≡ ok tt))

  check_factor-IsShown :
      (redis : Redis) (s s' : Server T) (now : ℕ) (keys : Keys) (user : User)
      (code : Option (List ℕ))
      → check_factor T f redis s now keys user code ≡ (s', ok tt)
      → user.mfa_enabled ≡ true
      → IsShown s now user code
  unfolding check_factor second_factor
  check_factor-IsShown redis s s' now keys user none e on = ground arith
  check_factor-IsShown redis s s' now keys user (some code) e on =
      elim (Bool-cases (redeem T f.verify_code f.upper s.data_rows now user.id code).1) [
        | inl redeemed ↦ (code, refl, inl redeemed)
        | inr not_one ↦
            elim (Result-cases
              (assert_valid_mfa_code f s.used_codes now user.mfa_secret code user.id).1) [
                | inl (x, bad) ↦ ground arith
                | inr (done, good) ↦ (code, refl, inr (ground arith))
              ]
      ]

  check_factor-backoff :
      (redis : Redis) (s s' : Server T) (now : ℕ) (keys : Keys) (user : User)
      (code : Option (List ℕ))
      → check_factor T f redis s now keys user code ≡ (s', ok tt)
      → s'.backoff ≡ s.backoff
  unfolding check_factor second_factor
  check_factor-backoff redis s s' now keys user none e = ground arith
  check_factor-backoff redis s s' now keys user (some code) e =
      elim (Bool-cases (redeem T f.verify_code f.upper s.data_rows now user.id code).1) [
        | inl redeemed ↦ ground arith
        | inr not_one ↦
            elim (Result-cases
              (assert_valid_mfa_code f s.used_codes now user.mfa_secret code user.id).1) [
                | inl (x, bad) ↦ ground arith
                | inr (done, good) ↦ ground arith
              ]
      ]

  open_session-user :
      (redis : Redis) (s s' : Server T) (now : ℕ) (keys : Keys) (user : User) (random : Random)
      (session : Session)
      → open_session T f redis s now keys user random ≡ (s', ok session)
      → (session.user_id ≡ user.id)
        × (s'.backoff keys.account ≡ (if redis.writes then none else s.backoff keys.account))
  unfolding open_session create_session first_membership record_success
  open_session-user redis s s' now keys user random session e =
      elim (Option-cases
        (Memberships.find_first (λ m. m.user_id == user.id) s.data_rows.memberships)) [
          | inl nowhere ↦ ground arith
          | inr (m, found) ↦
              let (hers, there) =
                Memberships.find_first-sound (λ x. x.user_id == user.id) s.data_rows.memberships m
                  found in
              elim (Option-cases (
                Tokens.create (new_token T f.sha256 now m.user_id m.org_id none random)
                  s.data_rows.refresh_tokens)) [
                    | inl failed ↦ ground arith
                    | inr (rows, made) ↦ (ground arith, ground arith)
                  ]
        ]

  -- A sign-in that succeeds was not inside a cool-off of its address or its caller, as far as Redis could
  -- be read: where it cannot, the check lets it pass. The session is one of the user with that address,
  -- the password is the user's, and where the user has a second factor, one was shown: a recovery code
  -- that was redeemed with it, or an unused code of the app. The failures of the account are forgotten,
  -- unless Redis cannot be written.
  pub login_sound :
      (redis : Redis) (s s' : Server T) (now : ℕ) (input : LoginInput) (random : Random)
      (session : Session)
      → login T f redis s now input random ≡ (s', ok session)
      → (assert_not_backed_off redis s.backoff now (f.keys_of input.email input.ip) ≡ none)
        × (s'.backoff (f.keys_of input.email input.ip).account
            ≡ (if redis.writes then none else s.backoff (f.keys_of input.email input.ip).account))
        × (user : User) × (find_user T f s.data_rows input.email ≡ some user)
        × (session.user_id ≡ user.id)
        × (f.verify_password user.password_hash input.password ≡ true)
        × (user.mfa_enabled ≡ true → IsShown s now user input.mfa_code)
  unfolding login
  login_sound redis s s' now input random session e =
      elim (Option-cases
        (assert_not_backed_off redis s.backoff now (f.keys_of input.email input.ip))) [
          | inr (wait, cooling) ↦ ground arith
          | inl free ↦ elim (Option-cases (find_user T f s.data_rows input.email)) [
            | inl nobody ↦ ground arith
            | inr (user, found) ↦
                elim (Bool-cases (f.verify_password user.password_hash input.password)) [
                  | inr wrong ↦ ground arith
                  | inl right ↦
                      elim (Result-cases
                        (check_factor T f redis s now (f.keys_of input.email input.ip) user
                          input.mfa_code).1) [
                            | inl (x, bad) ↦ ground arith
                            | inr (done, good) ↦
                                let s1 =
                                  (check_factor T f redis s now (f.keys_of input.email input.ip)
                                    user input.mfa_code).0 in
                                let opened : open_session T f redis s1 now
                                      (f.keys_of input.email input.ip) user random
                                    ≡ (s', ok session) =
                                  ground arith in
                                let (mine, cleared) =
                                  open_session-user redis s1 s' now (f.keys_of input.email input.ip)
                                    user random session opened in
                                (
                                  free,
                                  cleared
                                      ∙ ap
                                          (λ b.
                                            if redis.writes
                                            then none
                                            else b (f.keys_of input.email input.ip).account)
                                          (check_factor-backoff redis s s1 now
                                            (f.keys_of input.email input.ip) user input.mfa_code
                                            (ground arith)),
                                  user,
                                  found,
                                  mine,
                                  right,
                                  check_factor-IsShown redis s s1 now
                                      (f.keys_of input.email input.ip) user input.mfa_code
                                      (ground arith),
                                )
                          ]
                ]
          ]
        ]

  check_factor-counted :
      (redis : Redis) (s : Server T) (now : ℕ) (keys : Keys) (user : User) (code : Option (List ℕ))
      (e : LoginRefusal)
      → (check_factor T f redis s now keys user code).1 ≡ err e
      → ((e ≡ mfa_required) × ((check_factor T f redis s now keys user code).0.backoff ≡ s.backoff))
        ⊎ ((check_factor T f redis s now keys user code).0.backoff
            ≡ record_failure redis s.backoff now keys)
  unfolding check_factor second_factor
  check_factor-counted redis s now keys user none e bad = elim (Bool-cases user.mfa_enabled) [
    | inl on ↦ inl (ground arith, ground arith)
    | inr off ↦ ground arith
  ]
  check_factor-counted redis s now keys user (some code) e bad =
      elim (Bool-cases user.mfa_enabled) [
        | inr off ↦ ground arith
        | inl on ↦
            elim (Bool-cases (redeem T f.verify_code f.upper s.data_rows now user.id code).1) [
              | inl redeemed ↦ ground arith
              | inr not_one ↦
                  elim (Result-cases
                    (assert_valid_mfa_code f s.used_codes now user.mfa_secret code user.id).1) [
                      | inl (x, wrong) ↦ inr (ground arith)
                      | inr (done, good) ↦ ground arith
                    ]
            ]
      ]

  open_session-refused :
      (redis : Redis) (s : Server T) (now : ℕ) (keys : Keys) (user : User) (random : Random)
      (e : LoginRefusal)
      → (open_session T f redis s now keys user random).1 ≡ err e
      → (x : Refusal) × (e ≡ not_signed_in x)
  unfolding open_session
  open_session-refused redis s now keys user random e bad =
      elim (Option-cases (first_membership T f.sha256 s.data_rows user.id)) [
        | inl nowhere ↦ (Refusal.no_organization, ground arith)
        | inr (m, found) ↦
            elim (Result-cases (create_session T f.sha256 s.data_rows now m none random).1) [
              | inl (x, failed) ↦ (x, ground arith)
              | inr (opened, good) ↦ ground arith
            ]
      ]

  -- A sign-in that fails on its address, its password or a second factor that was given is counted
  -- against the account and the caller: outside a cool-off, every refusal but that of a missing
  -- second factor, or of a user with no workspace, leaves the counters one failure further.
  pub login-counted :
      (redis : Redis) (s s' : Server T) (now : ℕ) (input : LoginInput) (random : Random)
      (e : LoginRefusal)
      → login T f redis s now input random ≡ (s', err e)
      → (assert_not_backed_off redis s.backoff now (f.keys_of input.email input.ip) ≡ none)
      → ((e ≡ mfa_required) × (s'.backoff ≡ s.backoff))
        ⊎ (((x : Refusal) × (e ≡ not_signed_in x))
            ⊎ (s'.backoff ≡ record_failure redis s.backoff now (f.keys_of input.email input.ip)))
  unfolding login
  login-counted redis s s' now input random e refused free =
      elim (Option-cases (find_user T f s.data_rows input.email)) [
        | inl nobody ↦ inr (inr (ground arith))
        | inr (user, found) ↦
            elim (Bool-cases (f.verify_password user.password_hash input.password)) [
              | inr wrong ↦ inr (inr (ground arith))
              | inl right ↦
                  elim (Result-cases
                    (check_factor T f redis s now (f.keys_of input.email input.ip) user
                      input.mfa_code).1) [
                        | inl (x, bad) ↦
                            elim (check_factor-counted redis s now (f.keys_of input.email input.ip)
                              user input.mfa_code x bad) [
                                | inl (missing, same) ↦ inl (ground arith, ground arith)
                                | inr counted ↦ inr (inr (ground arith))
                              ]
                        | inr (done, good) ↦ inr (
                            inl (
                              open_session-refused redis
                                (check_factor T f redis s now (f.keys_of input.email input.ip) user
                                  input.mfa_code).0
                                now (f.keys_of input.email input.ip) user random e (ground arith)))
                      ]
            ]
      ]
