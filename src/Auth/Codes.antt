-- ===== src/Auth/Codes.antt =====
-- apps/api/src/auth/backup-codes.service.ts: single-use recovery codes. `verify` is argon2, with
-- `none` where it throws; `upper` is JavaScript's `toUpperCase` on one character. A text is the
-- list of its characters' numbers.
pub mod Single
use godeye.Prelude.{
  take, ℕ, ◌+◌, ◌≡◌, refl, Bool, true, false, not, ◌&&◌, ◌||◌, Option, none, some, List, [], ◌∷◌,
  ◌++◌, ◌==◌, if◌then◌else◌, is_some, get_or, leb, map,
}
use mathlib.Core.Option
use godeye.Auth.Model.{MfaBackupCode, Tables, Data}

abbrev pub code_count : ℕ
code_count = 10

abbrev pub hyphen : ℕ
hyphen = 45

-- JavaScript's `\s`.
abbrev pub is_space : ℕ → Bool
is_space c =
    (leb 9 c && leb c 13)
    || c == 32
    || c == 160
    || c == 5760
    || (leb 8192 c && leb c 8202)
    || c == 8232
    || c == 8233
    || c == 8239
    || c == 8287
    || c == 12288
    || c == 65279

-- `raw.slice(n)`
abbrev pub drop : ℕ → List ℕ → List ℕ
drop ℕ.zero cs = cs
drop (ℕ.suc n) [] = []
drop (ℕ.suc n) (c ∷ cs) = drop n cs

unfoldable pub format_code : List ℕ → List ℕ
format_code raw = take 5 raw ++ (hyphen ∷ drop 5 raw)

-- `.replace(/[\s-]/g, "")`
abbrev pub strip : List ℕ → List ℕ
strip [] = []
strip (x ∷ xs) = if is_space x || x == hyphen then strip xs else x ∷ strip xs

-- Each character in upper case, without white space and hyphens. The source trims first, which
-- takes away nothing else.
unfoldable pub normalize_code : (ℕ → List ℕ) → List ℕ → List ℕ
normalize_code upper [] = []
normalize_code upper (c ∷ cs) = strip (upper c) ++ normalize_code upper cs

abbrev pub spend : ℕ → MfaBackupCode → MfaBackupCode
spend now c = record c { used_at = some now }

-- The loop over the unused codes: the first one that verifies, with no early end.
unfoldable pub matched :
    (ℕ → List ℕ → Option Bool) → List ℕ → Option ℕ → List MfaBackupCode → Option ℕ
matched verify candidate found [] = found
matched verify candidate found (c ∷ cs) =
    let hit = get_or (verify c.code_hash candidate) false in
    matched verify candidate (if hit && not (is_some found) then some c.id else found) cs

module _ (T : Tables) (verify : ℕ → List ℕ → Option Bool) (upper : ℕ → List ℕ) where
  open T use {codes as Codes}

  -- `where: { userId, usedAt: null }`
  abbrev pub unused_of : ℕ → MfaBackupCode → Bool
  unused_of user_id c = c.user_id == user_id && not (is_some c.used_at)

  -- `where: { id, usedAt: null }`
  abbrev pub unused_code : ℕ → MfaBackupCode → Bool
  unused_code id c = c.id == id && not (is_some c.used_at)

  unfoldable pub remaining : Data T → ℕ → ℕ
  remaining d user_id = Codes.count (unused_of user_id) d.codes

  unfoldable pub revoke_all : Data T → ℕ → Data T
  revoke_all d user_id = record d { codes = Codes.delete_many (λ c. c.user_id == user_id) d.codes }

  pub create_codes : List MfaBackupCode → Codes.Rows → Option Codes.Rows
  create_codes [] rows = some rows
  create_codes (c ∷ cs) rows = elim (Codes.create c rows) [
    | none ↦ none
    | some rows' ↦ create_codes cs rows'
  ]

  unfoldable pub new_codes : ℕ → List (ℕ × ℕ) → List MfaBackupCode
  new_codes user_id [] = []
  new_codes user_id ((id, code_hash) ∷ rest) =
      record { id = id; user_id = user_id; code_hash = code_hash; used_at = none }
      ∷ new_codes user_id rest

  -- `fresh` has the ids of the new rows and the hashes of the codes; the codes themselves are shown
  -- to the user. `none` is a transaction that failed.
  unfoldable pub regenerate : Data T → ℕ → List (ℕ × ℕ) → Option (Data T)
  unfolding new_codes create_codes
  regenerate d user_id fresh =
      Option.map (λ (rows : Codes.Rows). record d { codes = rows })
        (create_codes (new_codes user_id fresh)
          (Codes.delete_many (λ c. c.user_id == user_id) d.codes))

  abbrev pub is_empty : List ℕ → Bool
  is_empty [] = true
  is_empty (c ∷ cs) = false

  -- `redeem` from its conditional update on, for the row that it matched.
  unfoldable pub spend_code : Data T → ℕ → ℕ → Data T × Bool
  spend_code d now id = (
    record d { codes = Codes.update_many (unused_code id) (spend now) (λ c. refl) d.codes },
    Codes.count (unused_code id) d.codes == 1,
  )

  unfoldable pub redeem : Data T → ℕ → ℕ → List ℕ → Data T × Bool
  unfolding spend_code
  redeem d now user_id input =
      let candidate = normalize_code upper input in
      if is_empty candidate
      then (d, false)
      else elim (matched verify candidate none
          (Codes.find_many (unused_of user_id) (code_count + code_count) d.codes)) [
            | none ↦ (d, false)
            | some id ↦ spend_code d now id
          ]
