-- ===== src/Auth/Refresh/Theft.antt =====
-- A successful rotation, and a token that is used again after it.
use godeye.Prelude.{
  ℕ, ◌≡◌, ◌∙◌, refl, sym, ap, true, false, some, arith, ◌==◌, ltb, is_some, Option-cases,
  Bool-cases, inl, inr, ok, err,
}
use mathlib.Core.Path.{subst}
use godeye.Auth.Model.{RefreshToken, Membership, Tables, Data, invalid_refresh_token}
use godeye.Auth.Refresh.{
  Random, Session, revoke, new_token, create_session, with_hash, workspace_of, revoke_one,
  revoke_family, family_where, refresh, first_membership, member_of,
}
use godeye.Auth.Refresh.Reuse.{
  IsDead, IsUnique, before, create-hash, spent_refused, reused, reused-tables, update_many-IsUnique,
  revoke_family-IsDead,
}

module _ (T : Tables) (hash : ℕ → ℕ) where
  open T use {refresh_tokens as Tokens, memberships as Memberships}

  abbrev revoked_rows : Data T → ℕ → RefreshToken → Tokens.Rows
  revoked_rows d now stored =
      Tokens.update_many (λ r. r.id == stored.id) (revoke now) (λ r. refl) d.refresh_tokens

  -- What a successful `refresh` did.
  record Rotated (d : Data T) (now : ℕ) (random : Random) (stored : RefreshToken) (d1 : Data T)
      (s : Session) : Type 0 where
    m : Membership
    chosen : workspace_of T hash d stored ≡ some m
    live : is_some stored.revoked_at ≡ false
    made :
        Tokens.create
          (new_token T hash now m.user_id m.org_id stored.family_id random)
          (revoked_rows d now stored)
        ≡ some d1.refresh_tokens
    user : s.user_id ≡ m.user_id
    org : s.org_id ≡ m.org_id
    role : s.role ≡ m.role
    token : s.refresh_token ≡ random.token

  refresh-Rotated :
      (d d1 : Data T) (now : ℕ) (random : Random) (token : ℕ) (stored : RefreshToken) (s : Session)
      → Tokens.find_first (with_hash T hash token) d.refresh_tokens ≡ some stored
      → refresh T hash d now random token ≡ (d1, ok s)
      → Rotated d now random stored d1 s
  unfolding refresh create_session revoke_one workspace_of first_membership
  refresh-Rotated d d1 now random token stored s found e =
      elim (Bool-cases (is_some stored.revoked_at)) [
        | inl gone ↦ ground arith
        | inr live ↦ elim (Bool-cases (ltb stored.expires_at now)) [
          | inl over ↦ ground arith
          | inr young ↦
              elim (Option-cases (workspace_of T hash (revoke_one T hash d now stored.id) stored)) [
                | inl nowhere ↦ ground arith
                | inr (m, chosen) ↦
                    elim (Option-cases (
                      Tokens.create
                        (new_token T hash now m.user_id m.org_id stored.family_id random)
                        (revoked_rows d now stored))) [
                          | inl failed ↦ ground arith
                          | inr (rows, made) ↦ record {
                            m = m;
                            chosen = chosen;
                            live = live;
                            made = ground arith;
                            user = ground arith;
                            org = ground arith;
                            role = ground arith;
                            token = ground arith;
                          }
                        ]
              ]
        ]
      ]

  -- A refresh that succeeds stays in the workspace of the session while the user is a member of it,
  -- with the role of the membership as it is now.
  pub refresh-workspace :
      (d d1 : Data T) (now : ℕ) (random : Random) (token org : ℕ) (stored : RefreshToken)
      (m : Membership) (s : Session)
      → Tokens.find_first (with_hash T hash token) d.refresh_tokens ≡ some stored
      → stored.org_id ≡ some org
      → Memberships.find_first (member_of T hash stored.user_id org) d.memberships ≡ some m
      → refresh T hash d now random token ≡ (d1, ok s)
      → (s.user_id ≡ stored.user_id) × (s.org_id ≡ org) × (s.role ≡ m.role)
  unfolding workspace_of
  refresh-workspace d d1 now random token org stored m s found scoped member e =
      let done = refresh-Rotated d d1 now random token stored s found e in
      let (picked, there) =
        Memberships.find_first-sound (member_of T hash stored.user_id org) d.memberships m member in
      let same : done.m ≡ m = ground (arith, done.chosen) in
      (done.user ∙ ground arith, done.org ∙ ground arith, done.role ∙ ap (λ x. x.role) same)

  -- The token that a refresh presented is spent, and the row that bears it still has its family.
  record Spent (d1 : Data T) (token family : ℕ) : Type 0 where
    row : RefreshToken
    there : Tokens.find_unique d1.refresh_tokens row.id ≡ some row
    hit : row.token_hash ≡ hash token
    chain : row.family_id ≡ some family
    gone : is_some row.revoked_at ≡ true

  Rotated-Spent :
      (d d1 : Data T) (now : ℕ) (random : Random) (token family : ℕ) (stored : RefreshToken)
      (s : Session)
      → Tokens.find_first (with_hash T hash token) d.refresh_tokens ≡ some stored
      → stored.family_id ≡ some family
      → Rotated d now random stored d1 s
      → Spent d1 token family
  unfolding new_token
  Rotated-Spent d d1 now random token family stored s found chain done =
      let (hit, had) =
        Tokens.find_first-sound (with_hash T hash token) d.refresh_tokens stored found in
      record {
        row = revoke now stored;
        there = ground (
          arith,
          Tokens.find_unique-update_many (λ r. r.id == stored.id) (revoke now) (λ r. refl)
              d.refresh_tokens stored.id,
          Tokens.find_unique-create
              (new_token T hash now done.m.user_id done.m.org_id stored.family_id random)
              (revoked_rows d now stored) d1.refresh_tokens stored.id done.made,
          Tokens.create-clash
              (new_token T hash now done.m.user_id done.m.org_id stored.family_id random)
              (revoked_rows d now stored) stored.id (revoke now stored),
        );
        hit = ground arith;
        chain = chain;
        gone = refl;
      }

  create-IsUnique :
      (new : RefreshToken) (rows rows' : Tokens.Rows)
      → Tokens.create new rows ≡ some rows'
      → IsUnique T hash rows
      → IsUnique T hash rows'
  create-IsUnique new rows rows' made unique j k r s ej ek same =
      elim (Bool-cases (r.token_hash == new.token_hash)) [
        | inl is_new ↦
            let r_new = create-hash T hash new rows rows' j r made ej (ground arith) in
            let s_new = create-hash T hash new rows rows' k s made ek (ground arith) in
            ground (arith, Tokens.find_unique-key rows' j r ej, Tokens.find_unique-key rows' k s ek)
        | inr old ↦
            unique j k r s (ground (arith, Tokens.find_unique-create new rows rows' j made))
              (ground (arith, Tokens.find_unique-create new rows rows' k made)) same
      ]

  -- Once the family of a rotation is revoked, the token that the rotation issued is refused.
  Rotated-refused :
      (d d1 : Data T) (now now1 now2 : ℕ) (random random2 : Random) (family : ℕ)
      (stored : RefreshToken) (s : Session)
      → stored.family_id ≡ some family
      → Rotated d now random stored d1 s
      → (refresh T hash (revoke_family T hash d1 now1 (some family)) now2 random2 s.refresh_token).1
        ≡ err invalid_refresh_token
  unfolding revoke_family new_token
  Rotated-refused d d1 now now1 now2 random random2 family stored s chain done =
      spent_refused T hash (revoke_family T hash d1 now1 (some family)) now2 random2 s.refresh_token
        (λ k r e h.
          let b = before T hash (family_where T hash family) now1 d1.refresh_tokens k r e in
          let is_new =
            create-hash T hash
              (new_token T hash now done.m.user_id done.m.org_id stored.family_id random)
              (revoked_rows d now stored) d1.refresh_tokens k b.row done.made
              (ground (arith, b.now_is, done.token)) in
          revoke_family-IsDead T hash d1 now1 family k r e (ground (arith, b.now_is)))

  -- With the unique index on the token hash: after a successful rotation of a token of a family,
  -- whoever presents the old token again is refused, every token of the family is revoked, and the
  -- token that the rotation issued is refused too.
  pub rotated_token-reuse :
      (d d1 : Data T) (now now1 now2 : ℕ) (random random1 random2 : Random) (token family : ℕ)
      (stored : RefreshToken) (s : Session)
      → IsUnique T hash d.refresh_tokens
      → Tokens.find_first (with_hash T hash token) d.refresh_tokens ≡ some stored
      → stored.family_id ≡ some family
      → refresh T hash d now random token ≡ (d1, ok s)
      → ((refresh T hash d1 now1 random1 token).1 ≡ err invalid_refresh_token)
        × IsDead T hash (refresh T hash d1 now1 random1 token).0 family
        × ((refresh T hash (refresh T hash d1 now1 random1 token).0 now2 random2 s.refresh_token).1
            ≡ err invalid_refresh_token)
  rotated_token-reuse d d1 now now1 now2 random random1 random2 token family stored s unique found
        chain e =
      let done = refresh-Rotated d d1 now random token stored s found e in
      let sp = Rotated-Spent d d1 now random token family stored s found chain done in
      let unique1 =
        create-IsUnique (new_token T hash now done.m.user_id done.m.org_id stored.family_id random)
          (revoked_rows d now stored) d1.refresh_tokens done.made
          (update_many-IsUnique T hash (λ r. r.id == stored.id) now d.refresh_tokens unique) in
      elim (Option-cases (Tokens.find_first (with_hash T hash token) d1.refresh_tokens)) [
        | inl missing ↦ ground (
          arith,
          Tokens.find_first-none (with_hash T hash token) d1.refresh_tokens sp.row.id sp.row missing
              sp.there,
          sp.hit,
        )
        | inr (again, found1) ↦
            let (hit, there) =
              Tokens.find_first-sound (with_hash T hash token) d1.refresh_tokens again found1 in
            let one : again.id ≡ sp.row.id =
              unique1 again.id sp.row.id again sp.row there sp.there
                (ground (arith, hit, sp.hit)) in
            let same : again ≡ sp.row = ground (arith, there, sp.there) in
            let gone1 : is_some again.revoked_at ≡ true =
              ap (λ r. is_some r.revoked_at) same ∙ sp.gone in
            let chain1 : again.family_id ≡ some family = ap (λ r. r.family_id) same ∙ sp.chain in
            let (refused, dead) =
              reused T hash d1 now1 random1 token family again found1 gone1 chain1 in
            (
              refused,
              dead,
              subst
                  (λ x.
                    (refresh T hash x now2 random2 s.refresh_token).1 ≡ err invalid_refresh_token)
                  (sym
                    (reused-tables T hash d1 now1 random1 token family again found1 gone1 chain1))
                  (Rotated-refused d d1 now now1 now2 random random2 family stored s chain done),
            )
      ]
