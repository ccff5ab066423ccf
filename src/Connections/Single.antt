-- ===== src/Connections/Single.antt =====
-- A state works once and only in the browser that began the flow.
use godeye.Prelude.{
  ℕ, ◌≡◌, ◌≢◌, Bool, true, not, ◌&&◌, Option, none, some, List, [], ◌∷◌, arith, ◌==◌, Option-cases,
  inl, inr, ok,
}
use godeye.Connections.State.{
  Provider, StateClaims, ConsumedState, StateStore, Cookies, StateRandom, take_state, is_bound,
  issue, consume,
}

-- The calls of any browsers, each with the cookies that it sends.
pub data StateCall : Type 0 where
  issues :
      Cookies
      → (now : ℕ) (reachable : Bool) → StateRandom
      → Provider
      → (org_id user_id : ℕ) → StateCall
  consumes : Cookies → (now : ℕ) (reachable : Bool) → Provider → Option StateClaims → StateCall

-- No flow of the list draws the id `jti`.
abbrev pub draws_other : ℕ → List StateCall → Bool
draws_other jti [] = true
draws_other jti (issues cookies now reachable random provider org_id user_id ∷ calls) =
    not (random.jti == jti) && draws_other jti calls
draws_other jti (consumes cookies now reachable provider claims ∷ calls) = draws_other jti calls

module _ (hash : ℕ → ℕ) where
  pub run_states : StateStore → List StateCall → StateStore
  run_states store [] = store
  run_states store (issues cookies now reachable random provider org_id user_id ∷ calls) =
      run_states (issue hash store cookies now reachable random provider org_id user_id).0 calls
  run_states store (consumes cookies now reachable provider claims ∷ calls) =
      run_states (consume hash store cookies now reachable provider claims).0 calls

  consume-gone :
      (store : StateStore) (cookies : Cookies) (now : ℕ) (reachable : Bool) (provider : Provider)
      (claims : Option StateClaims) (jti : ℕ)
      → store jti ≡ none
      → (consume hash store cookies now reachable provider claims).0 jti ≡ none
  unfolding consume take_state
  consume-gone store cookies now reachable provider none jti gone = gone
  consume-gone store cookies now reachable provider (some claims) jti gone =
      elim (Option-cases (take_state store now claims.jti).0) [
        | inl missing ↦ ground arith
        | inr (p, found) ↦ ground arith
      ]

  run-gone :
      (calls : List StateCall) (store : StateStore) (jti : ℕ)
      → draws_other jti calls ≡ true
      → store jti ≡ none
      → run_states store calls jti ≡ none
  unfolding run_states issue
  run-gone [] store jti other gone = gone
  run-gone (issues cookies now reachable random provider org_id user_id ∷ calls) store jti other
        gone =
      run-gone calls (issue hash store cookies now reachable random provider org_id user_id).0 jti
        (ground arith) (ground arith)
  run-gone (consumes cookies now reachable provider claims ∷ calls) store jti other gone =
      run-gone calls (consume hash store cookies now reachable provider claims).0 jti other
        (consume-gone store cookies now reachable provider claims jti gone)

  -- A state that is consumed was bound to the browser, by the nonce in its cookie, and to the
  -- workspace and the user that began the flow. It works once: whatever flows begin and end
  -- afterwards, in whatever browsers, unless one draws the same random id, the same state is not
  -- consumed again.
  pub consume-once :
      (store store' : StateStore) (cookies cookies' cookies2 : Cookies) (now later : ℕ)
      (reachable reachable2 : Bool) (provider provider2 : Provider) (claims : StateClaims)
      (state : ConsumedState) (calls : List StateCall)
      → consume hash store cookies now reachable provider (some claims)
        ≡ (store', cookies', ok state)
      → draws_other claims.jti calls ≡ true
      → (is_bound hash cookies provider claims.nch ≡ true)
        × (state.org_id ≡ claims.org_id)
        × (state.user_id ≡ claims.sub)
        × ((again : ConsumedState)
            → (consume hash
                (run_states store' calls)
                cookies2
                later
                reachable2
                provider2
                (some claims)).2
              ≢ ok again)
  unfolding consume take_state
  consume-once store store' cookies cookies' cookies2 now later reachable reachable2 provider
        provider2 claims state calls e other =
      elim (Option-cases (take_state store now claims.jti).0) [
        | inl missing ↦ ground arith
        | inr (p, found) ↦
            let gone : store' claims.jti ≡ none = ground arith in
            let still = run-gone calls store' claims.jti other gone in
            (ground arith, ground arith, ground arith, λ again twice. ground (arith, still))
      ]
