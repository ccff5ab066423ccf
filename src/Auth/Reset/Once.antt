-- ===== src/Auth/Reset/Once.antt =====
-- A reset link works once, also when two requests race, and it ends every session of its user.
use godeye.Prelude.{
  ℕ, ◌≡◌, refl, Bool, true, false, not, ◌&&◌, none, some, List, [], ◌∷◌, arith, ◌==◌, ltb, is_some,
  Option-cases, Bool-cases, inl, inr, ok,
}
use godeye.Auth.Model.{User, RefreshToken, PasswordResetToken, Tables, Data}
use godeye.Auth.Refresh.{revoke}
use godeye.Auth.Reset.{
  mark_used, with_password, new_reset, outstanding_where, request, unused_where, session_where,
  claim, find_reset, consume, purge_expired,
}

-- The calls of the service; `claims` is the rest of a `consume` that read its row earlier.
pub data ResetCall : Type 0 where
  requests : (now address row_id token : ℕ) → ResetCall
  consumes : (now token password_hash : ℕ) → ResetCall
  claims : (now : ℕ) → PasswordResetToken → (password_hash : ℕ) → ResetCall
  purges : (before : ℕ) → ResetCall

-- No request of the list gives its row the id `k`.
abbrev pub avoids : ℕ → List ResetCall → Bool
avoids k [] = true
avoids k (requests now address row_id token ∷ calls) = not (row_id == k) && avoids k calls
avoids k (consumes now token password_hash ∷ calls) = avoids k calls
avoids k (claims now reset password_hash ∷ calls) = avoids k calls
avoids k (purges before ∷ calls) = avoids k calls

module _ (T : Tables) (hash : ℕ → ℕ) where
  open T use {users as Users, refresh_tokens as Tokens, resets as Resets}

  unfoldable pub run_resets : Data T → List ResetCall → Data T
  run_resets d [] = d
  run_resets d (requests now address row_id token ∷ calls) =
      run_resets (request T hash d now address row_id token).0 calls
  run_resets d (consumes now token password_hash ∷ calls) =
      run_resets (consume T hash d now token password_hash).0 calls
  run_resets d (claims now reset password_hash ∷ calls) =
      run_resets (claim T hash d now reset password_hash).0 calls
  run_resets d (purges before ∷ calls) = run_resets (purge_expired T hash d before) calls

  -- The row `k`, if it is there, has been used.
  abbrev pub IsUsed : Data T → ℕ → Type 0
  IsUsed d k =
      (r : PasswordResetToken) → Resets.find_unique d.resets k ≡ some r → is_some r.used_at ≡ true

  mark-IsUsed :
      (q : PasswordResetToken → Bool) (now k : ℕ) (rows : Resets.Rows)
      → ((r : PasswordResetToken) → Resets.find_unique rows k ≡ some r → is_some r.used_at ≡ true)
      → (r : PasswordResetToken)
      → Resets.find_unique (Resets.update_many q (mark_used now) (λ t. refl) rows) k ≡ some r
      → is_some r.used_at ≡ true
  mark-IsUsed q now k rows used r e = elim (Option-cases (Resets.find_unique rows k)) [
    | inl gone ↦ ground (arith, Resets.find_unique-update_many q (mark_used now) (λ t. refl) rows k)
    | inr (r0, had) ↦
        ground
          (arith, Resets.find_unique-update_many q (mark_used now) (λ t. refl) rows k, used r0 had)
  ]

  claim-IsUsed :
      (d : Data T) (now : ℕ) (reset : PasswordResetToken) (password_hash k : ℕ)
      → IsUsed d k
      → IsUsed (claim T hash d now reset password_hash).0 k
  unfolding claim
  claim-IsUsed d now reset password_hash k used r e =
      elim (Option-cases (Users.find_unique d.users reset.user_id)) [
        | inl nobody ↦
            ground (arith, mark-IsUsed (unused_where T hash reset.id) now k d.resets used r)
        | inr (user, has) ↦
            ground (arith, mark-IsUsed (unused_where T hash reset.id) now k d.resets used r)
      ]

  consume-IsUsed :
      (d : Data T) (now token password_hash k : ℕ)
      → IsUsed d k
      → IsUsed (consume T hash d now token password_hash).0 k
  unfolding consume
  consume-IsUsed d now token password_hash k used r e =
      elim (Option-cases (find_reset T hash d token)) [
        | inl missing ↦ ground (arith, used r)
        | inr (reset, found) ↦
            ground (arith, used r, claim-IsUsed d now reset password_hash k used r)
      ]

  request-IsUsed :
      (d : Data T) (now address row_id token k : ℕ)
      → row_id == k ≡ false
      → IsUsed d k
      → IsUsed (request T hash d now address row_id token).0 k
  unfolding request new_reset
  request-IsUsed d now address row_id token k other used r e =
      elim (Option-cases (Users.find_first (λ u. u.email == address) d.users)) [
        | inl nobody ↦ ground (arith, used r)
        | inr (user, found) ↦
            let marked =
              Resets.update_many (outstanding_where T hash user.id) (mark_used now) (λ t. refl)
                d.resets in
            elim (Option-cases (Resets.create (new_reset T hash now user.id row_id token) marked)) [
              | inl failed ↦
                  ground
                    (arith, mark-IsUsed (outstanding_where T hash user.id) now k d.resets used r)
              | inr (rows, made) ↦ ground (
                arith,
                mark-IsUsed (outstanding_where T hash user.id) now k d.resets used r,
                Resets.find_unique-create (new_reset T hash now user.id row_id token) marked rows k
                    made,
              )
            ]
      ]

  purge-IsUsed : (d : Data T) (at k : ℕ) → IsUsed d k → IsUsed (purge_expired T hash d at) k
  unfolding purge_expired
  purge-IsUsed d at k used r e = elim (Option-cases (Resets.find_unique d.resets k)) [
    | inl gone ↦ ground (arith, Resets.delete_many-none (λ t. ltb t.expires_at at) d.resets k gone)
    | inr (r0, had) ↦ ground (
      arith,
      Resets.find_unique-delete_many (λ t. ltb t.expires_at at) d.resets k r0 had,
      used r0 had,
    )
  ]

  run-IsUsed :
      (calls : List ResetCall) (d : Data T) (k : ℕ)
      → avoids k calls ≡ true
      → IsUsed d k
      → IsUsed (run_resets d calls) k
  unfolding run_resets
  run-IsUsed [] d k h used = used
  run-IsUsed (requests now address row_id token ∷ calls) d k h used =
      run-IsUsed calls (request T hash d now address row_id token).0 k (ground arith)
        (request-IsUsed d now address row_id token k (ground arith) used)
  run-IsUsed (consumes now token password_hash ∷ calls) d k h used =
      run-IsUsed calls (consume T hash d now token password_hash).0 k h
        (consume-IsUsed d now token password_hash k used)
  run-IsUsed (claims now reset password_hash ∷ calls) d k h used =
      run-IsUsed calls (claim T hash d now reset password_hash).0 k h
        (claim-IsUsed d now reset password_hash k used)
  run-IsUsed (purges at ∷ calls) d k h used =
      run-IsUsed calls (purge_expired T hash d at) k h (purge-IsUsed d at k used)

  resets-claim :
      (d : Data T) (now : ℕ) (reset : PasswordResetToken) (password_hash : ℕ)
      → (claim T hash d now reset password_hash).0.resets
        ≡ Resets.update_many (unused_where T hash reset.id) (mark_used now) (λ t. refl) d.resets
  unfolding claim
  resets-claim d now reset password_hash =
      elim (Option-cases (Users.find_unique d.users reset.user_id)) [
        | inl nobody ↦ ground arith
        | inr (user, has) ↦ ground arith
      ]

  claim-marks :
      (d : Data T) (now : ℕ) (reset : PasswordResetToken) (password_hash : ℕ)
      → IsUsed (claim T hash d now reset password_hash).0 reset.id
  claim-marks d now reset password_hash r e =
      let after = resets-claim d now reset password_hash in
      elim (Option-cases (Resets.find_unique d.resets reset.id)) [
        | inl gone ↦ ground (
          arith,
          Resets.find_unique-update_many (unused_where T hash reset.id) (mark_used now) (λ t. refl)
              d.resets reset.id,
        )
        | inr (r0, had) ↦ ground (
          arith,
          Resets.find_unique-update_many (unused_where T hash reset.id) (mark_used now) (λ t. refl)
              d.resets reset.id,
          Resets.find_unique-key d.resets reset.id r0 had,
        )
      ]

  -- A reset link works once, also when two requests read its row before either wrote: after a
  -- claim of the row, and any calls that do not give its id to another row, a second claim is
  -- refused and leaves the users and their sessions as they were.
  pub claim-once :
      (d : Data T) (now later : ℕ) (reset : PasswordResetToken) (password_hash password_hash' : ℕ)
      (calls : List ResetCall)
      → avoids reset.id calls ≡ true
      → let d' = run_resets (claim T hash d now reset password_hash).0 calls in
        let second = claim T hash d' later reset password_hash' in
        (second.1 ≡ ok none)
        × (second.0.users ≡ d'.users)
        × (second.0.refresh_tokens ≡ d'.refresh_tokens)
  unfolding claim
  claim-once d now later reset password_hash password_hash' calls fresh =
      let d' = run_resets (claim T hash d now reset password_hash).0 calls in
      let used =
        run-IsUsed calls (claim T hash d now reset password_hash).0 reset.id fresh
          (claim-marks d now reset password_hash) in
      let nothing = Resets.count-eq-zero (unused_where T hash reset.id) d'.resets (λ k r e.
        elim (Bool-cases (r.id == reset.id)) [
          | inl here ↦
              ground (arith, used r (ground (arith, Resets.find_unique-key d'.resets k r e)))
          | inr other ↦ ground arith
        ]) in
      (ground arith, ground arith, ground arith)

  -- A reset that succeeds gives the user the new password, revokes every session of the user, and
  -- leaves the other users as they were.
  pub consume-revokes :
      (d d' : Data T) (now token password_hash user_id : ℕ)
      → consume T hash d now token password_hash ≡ (d', ok (some user_id))
      → ((u : User) → Users.find_unique d'.users user_id ≡ some u → u.password_hash ≡ password_hash)
        × ((k : ℕ) (r : RefreshToken)
            → Tokens.find_unique d'.refresh_tokens k ≡ some r
            → r.user_id ≡ user_id
            → is_some r.revoked_at ≡ true)
        × ((k : ℕ)
            → k == user_id ≡ false
            → Users.find_unique d'.users k ≡ Users.find_unique d.users k)
  unfolding consume claim
  consume-revokes d d' now token password_hash user_id e =
      elim (Option-cases (find_reset T hash d token)) [
        | inl missing ↦ ground arith
        | inr (reset, found) ↦ elim (Option-cases (Users.find_unique d.users reset.user_id)) [
          | inl nobody ↦ ground arith
          | inr (user, has) ↦
              let is_user : user.id ≡ user_id = ground arith in
              let users : d'.users
                  ≡ Users.update_many (λ u. u.id == reset.user_id) (with_password password_hash)
                      (λ u. refl) d.users =
                ground arith in
              let tokens : d'.refresh_tokens
                  ≡ Tokens.update_many (session_where T hash user.id) (revoke now) (λ r. refl)
                      d.refresh_tokens =
                ground arith in
              let key = Users.find_unique-key d.users reset.user_id user has in
              let changed =
                Users.find_unique-update_many (λ u. u.id == reset.user_id)
                  (with_password password_hash) (λ u. refl) d.users in
              let ended =
                Tokens.find_unique-update_many (session_where T hash user.id) (revoke now)
                  (λ r. refl) d.refresh_tokens in
              (
                λ u got. ground (arith, changed user_id, users),
                λ k r got mine. elim (Option-cases (Tokens.find_unique d.refresh_tokens k)) [
                  | inl gone ↦ ground (arith, ended k, tokens)
                  | inr (r0, had) ↦ ground (arith, ended k, tokens)
                ],
                λ k other. elim (Option-cases (Users.find_unique d.users k)) [
                  | inl gone ↦ ground (arith, changed k, users)
                  | inr (u0, had) ↦
                      ground (arith, changed k, users, Users.find_unique-key d.users k u0 had)
                ],
              )
        ]
      ]
