-- ===== src/Auth/Refresh/Reuse.antt =====
-- Rotation, and what the reuse of a rotated token does.
use godeye.Prelude.{
  ℕ, ◌≡◌, ◌∙◌, refl, sym, ap, Bool, true, some, arith, ◌==◌, is_some, Option-cases, Bool-cases, inl,
  inr, err,
}
use godeye.Db.{patch}
use godeye.Auth.Model.{RefreshToken, Tables, Data, invalid_refresh_token}
use godeye.Auth.Refresh.{Random, revoke, with_hash, family_where, revoke_family, refresh}

module _ (T : Tables) (hash : ℕ → ℕ) where
  open T use {refresh_tokens as Tokens, memberships as Memberships}

  -- Every token of the family is revoked.
  abbrev pub IsDead : Data T → ℕ → Type 0
  IsDead d family =
      (k : ℕ) (r : RefreshToken)
      → Tokens.find_unique d.refresh_tokens k ≡ some r
      → r.family_id ≡ some family
      → is_some r.revoked_at ≡ true

  pub revoke_family-IsDead :
      (d : Data T) (now family : ℕ) → IsDead (revoke_family T hash d now (some family)) family
  unfolding revoke_family
  revoke_family-IsDead d now family k r e f =
      elim (Option-cases (Tokens.find_unique d.refresh_tokens k)) [
        | inl gone ↦ ground (
          arith,
          Tokens.find_unique-update_many (family_where T hash family) (revoke now) (λ r. refl)
              d.refresh_tokens k,
        )
        | inr (r0, had) ↦ ground (
          arith,
          Tokens.find_unique-update_many (family_where T hash family) (revoke now) (λ r. refl)
              d.refresh_tokens k,
        )
      ]

  -- The unique index on `tokenHash`.
  abbrev pub IsUnique : Tokens.Rows → Type 0
  IsUnique rows =
      (j k : ℕ) (r s : RefreshToken)
      → Tokens.find_unique rows j ≡ some r
      → Tokens.find_unique rows k ≡ some s
      → r.token_hash ≡ s.token_hash
      → j ≡ k

  -- The row before a revocation.
  pub record Before (q : RefreshToken → Bool) (now : ℕ) (rows : Tokens.Rows) (k : ℕ)
      (r : RefreshToken) : Type 0 where
    pub row : RefreshToken
    pub had : Tokens.find_unique rows k ≡ some row
    pub now_is : r ≡ patch q (revoke now) row

  pub before :
      (q : RefreshToken → Bool) (now : ℕ) (rows : Tokens.Rows) (k : ℕ) (r : RefreshToken)
      → Tokens.find_unique (Tokens.update_many q (revoke now) (λ t. refl) rows) k ≡ some r
      → Before q now rows k r
  before q now rows k r e = elim (Option-cases (Tokens.find_unique rows k)) [
    | inl gone ↦ ground (arith, Tokens.find_unique-update_many q (revoke now) (λ t. refl) rows k)
    | inr (r0, had) ↦ record {
      row = r0;
      had = had;
      now_is = ground (arith, Tokens.find_unique-update_many q (revoke now) (λ t. refl) rows k);
    }
  ]

  patch-hash :
      (q : RefreshToken → Bool) (now : ℕ) (r : RefreshToken)
      → (patch q (revoke now) r).token_hash ≡ r.token_hash
  patch-hash q now r = ground arith

  pub update_many-IsUnique :
      (q : RefreshToken → Bool) (now : ℕ) (rows : Tokens.Rows)
      → IsUnique rows
      → IsUnique (Tokens.update_many q (revoke now) (λ t. refl) rows)
  update_many-IsUnique q now rows unique j k r s ej ek same =
      let bj = before q now rows j r ej in
      let bk = before q now rows k s ek in
      unique j k bj.row bk.row bj.had bk.had (
        sym (patch-hash q now bj.row)
        ∙ ap (λ t. t.token_hash) (sym bj.now_is)
        ∙ same
        ∙ ap (λ t. t.token_hash) bk.now_is
        ∙ patch-hash q now bk.row)

  -- A new row has a hash that no other row has.
  pub create-hash :
      (new : RefreshToken) (rows rows' : Tokens.Rows) (k : ℕ) (r : RefreshToken)
      → Tokens.create new rows ≡ some rows'
      → Tokens.find_unique rows' k ≡ some r
      → r.token_hash ≡ new.token_hash
      → r ≡ new
  create-hash new rows rows' k r made e same = elim (Bool-cases (new.id == k)) [
    | inl here ↦ ground (arith, Tokens.find_unique-create new rows rows' k made)
    | inr other ↦
        ground
          (arith, Tokens.find_unique-create new rows rows' k made, Tokens.create-clash new rows k r)
  ]

  -- Every token with this value is revoked.
  abbrev pub IsSpent : Data T → ℕ → Type 0
  IsSpent d token =
      (k : ℕ) (r : RefreshToken)
      → Tokens.find_unique d.refresh_tokens k ≡ some r
      → r.token_hash ≡ hash token
      → is_some r.revoked_at ≡ true

  pub spent_refused :
      (d : Data T) (now : ℕ) (random : Random) (token : ℕ)
      → IsSpent d token
      → (refresh T hash d now random token).1 ≡ err invalid_refresh_token
  unfolding refresh
  spent_refused d now random token spent =
      elim (Option-cases (Tokens.find_first (with_hash T hash token) d.refresh_tokens)) [
        | inl missing ↦ ground arith
        | inr (r, found) ↦
            let (hit, there) =
              Tokens.find_first-sound (with_hash T hash token) d.refresh_tokens r found in
            ground (arith, spent r.id r there)
      ]

  -- A revoked token of a family is refused, and with it every token of the family.
  pub reused :
      (d : Data T) (now : ℕ) (random : Random) (token family : ℕ) (stored : RefreshToken)
      → Tokens.find_first (with_hash T hash token) d.refresh_tokens ≡ some stored
      → is_some stored.revoked_at ≡ true
      → stored.family_id ≡ some family
      → ((refresh T hash d now random token).1 ≡ err invalid_refresh_token)
        × IsDead (refresh T hash d now random token).0 family
  unfolding refresh
  reused d now random token family stored found gone chain =
      (ground arith, rw (found, gone, chain, refresh) (revoke_family-IsDead d now family))

  pub reused-tables :
      (d : Data T) (now : ℕ) (random : Random) (token family : ℕ) (stored : RefreshToken)
      → Tokens.find_first (with_hash T hash token) d.refresh_tokens ≡ some stored
      → is_some stored.revoked_at ≡ true
      → stored.family_id ≡ some family
      → (refresh T hash d now random token).0 ≡ revoke_family T hash d now (some family)
  unfolding refresh
  reused-tables d now random token family stored found gone chain =
      rw (found, gone, chain, refresh) refl
