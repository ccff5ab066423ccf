-- ===== src/Auth/Login.antt =====
-- apps/api/src/auth/auth.service.ts: signing in, and the codes of the authenticator app. Passwords
-- are opaque numbers; a code is a text, the list of its characters' numbers. What the third-party
-- and Node functions answer is in `Factors`.
pub mod Replay
pub mod Sound
use godeye.Prelude.{
  ℕ, ◌+◌, refl, Bool, true, false, not, ◌&&◌, Option, none, some, List, ◌==◌, leb, if◌then◌else◌,
  is_some, Result, ok, err,
}
use godeye.Auth.Model.{User, Membership, Tables, Data, Refusal}
use godeye.Auth.Backoff.{Redis, Store, Keys, assert_not_backed_off, record_failure, record_success}
use godeye.Auth.Codes.{redeem}
use godeye.Auth.Refresh.{Random, Session, create_session, first_membership}

-- argon2, otplib, Node's hash and cipher (apps/api/src/common/crypto.service.ts), and JavaScript's
-- `toUpperCase`; `keys_of` are the texts of the two counters' keys, by the address trimmed and in lower
-- case and by the caller's. `none` stands for a call that throws.
pub record Factors : Type 0 where
  pub sha256 : ℕ → ℕ
  pub sha256_text : List ℕ → ℕ
  pub hash_password : (password : ℕ) → ℕ
  pub keys_of : (email ip : ℕ) → Keys
  pub verify_password : (password_hash password : ℕ) → Bool
  pub verify_code : ℕ → List ℕ → Option Bool
  pub upper : ℕ → List ℕ
  pub encrypt : (secret user_id : ℕ) → ℕ
  pub decrypt : (encrypted user_id : ℕ) → Option ℕ
  pub verify_totp : (now : ℕ) → List ℕ → (secret : ℕ) → Bool

abbrev pub mfa_replay_window : ℕ
mfa_replay_window = 90_000

-- `consumedMfaCodes`: from the user and the hash of the code to the end of the window.
abbrev pub UsedCodes : Type 0
UsedCodes = ℕ → ℕ → Option ℕ

unfoldable pub forget_expired : UsedCodes → ℕ → UsedCodes
forget_expired used now u h = elim (used u h) [
  | none ↦ none
  | some until ↦ if leb until now then none else some until
]

abbrev pub remember : UsedCodes → ℕ → ℕ → ℕ → UsedCodes
remember used user_id h until u g = if u == user_id && g == h then some until else used u g

pub data LoginRefusal : Type 0 where
  too_many_attempts : (wait : ℕ) → LoginRefusal
  invalid_credentials mfa_required mfa_not_set_up undecipherable invalid_mfa_code : LoginRefusal
  code_already_used : LoginRefusal
  not_signed_in : Refusal → LoginRefusal

unfoldable pub assert_valid_mfa_code :
    Factors → UsedCodes → ℕ → Option ℕ → List ℕ → ℕ → UsedCodes × Result LoginRefusal (Unit {0})
assert_valid_mfa_code f used now encrypted_secret code user_id = elim encrypted_secret [
  | none ↦ (used, err mfa_not_set_up)
  | some encrypted ↦ elim (f.decrypt encrypted user_id) [
    | none ↦ (used, err undecipherable)
    | some secret ↦
        let used' = forget_expired used now in
        if not (f.verify_totp now code secret)
        then (used, err invalid_mfa_code)
        else if is_some (used' user_id (f.sha256_text code))
        then (used', err code_already_used)
        else (remember used' user_id (f.sha256_text code) (now + mfa_replay_window), ok tt)
  ]
]

-- What a replica and its stores hold.
pub record Server (T : Tables) : Type 0 where
  pub data_rows : Data T
  pub backoff : Store
  pub used_codes : UsedCodes

pub record LoginInput : Type 0 where
  pub email : ℕ
  pub ip : ℕ
  pub password : ℕ
  pub mfa_code : Option (List ℕ)

module _ (T : Tables) (f : Factors) where
  open T use {users as Users}

  unfoldable pub find_user : Data T → ℕ → Option User
  find_user d email = Users.find_first (λ u. u.email == email) d.users

  -- The second factor: a recovery code is tried before the code of the app.
  unfoldable pub second_factor :
      Server T → ℕ → User → Option (List ℕ) → Server T × Result LoginRefusal (Unit {0})
  second_factor s now user none = (s, err mfa_required)
  second_factor s now user (some code) =
      let (d, redeemed) = redeem T f.verify_code f.upper s.data_rows now user.id code in
      if redeemed
      then (record s { data_rows = d }, ok tt)
      else let (used, checked) =
          assert_valid_mfa_code f s.used_codes now user.mfa_secret code user.id in
        (record s { data_rows = d; used_codes = used }, checked)

  abbrev pub count_failure : Redis → Server T → ℕ → Keys → Server T
  count_failure redis s now keys = record s { backoff = record_failure redis s.backoff now keys }

  -- A failed second factor counts as a failed sign-in, a missing one does not.
  unfoldable pub check_factor :
      Redis
      → Server T
      → ℕ
      → Keys
      → User
      → Option (List ℕ)
      → Server T × Result LoginRefusal (Unit {0})
  check_factor redis s now keys user code =
      if not user.mfa_enabled
      then (s, ok tt)
      else let (s', checked) = second_factor s now user code in
        elim checked [
          | ok done ↦ (s', ok tt)
          | err e ↦ (if is_some code then count_failure redis s' now keys else s', err e)
        ]

  unfoldable pub open_session :
      Redis → Server T → ℕ → Keys → User → Random → Server T × Result LoginRefusal Session
  open_session redis s now keys user random =
      elim (first_membership T f.sha256 s.data_rows user.id) [
        | none ↦ (s, err (not_signed_in Refusal.no_organization))
        | some membership ↦
            let (d, session) = create_session T f.sha256 s.data_rows now membership none random in
            let s' : Server T = record s {
              data_rows = d;
              backoff = record_success redis s.backoff keys;
            } in
            elim session [ ok opened ↦ (s', ok opened) | err e ↦ (s', err (not_signed_in e)) ]
      ]

  unfoldable pub login :
      Redis → Server T → ℕ → LoginInput → Random → Server T × Result LoginRefusal Session
  login redis s now input random =
      let keys = f.keys_of input.email input.ip in
      elim (assert_not_backed_off redis s.backoff now keys) [
        | some wait ↦ (s, err (too_many_attempts wait))
        | none ↦ elim (find_user s.data_rows input.email) [
          | none ↦ (count_failure redis s now keys, err invalid_credentials)
          | some user ↦
              if not (f.verify_password user.password_hash input.password)
              then (count_failure redis s now keys, err invalid_credentials)
              else let (s', checked) = check_factor redis s now keys user input.mfa_code in
                elim checked [
                  | err e ↦ (s', err e)
                  | ok done ↦ open_session redis s' now keys user random
                ]
        ]
      ]
