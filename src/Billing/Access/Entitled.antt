-- ===== src/Billing/Access/Entitled.antt =====
-- The lock of a workspace against an independent description of who may write.
use godeye.Prelude.{
  ℕ, ◌<◌, ◌≡◌, refl, ◌↔◌, true, false, Option, none, some, arith, inl, inr, Option-cases,
  Bool-cases,
}
use godeye.Billing.Model.{is_exempt, SubscriptionStatus}
use godeye.Billing.Access.{decide, reached, OrgView, SubView}

-- The period has no end, or its end lies ahead.
abbrev pub Ahead : ℕ → Option ℕ → Type 0
Ahead now none = Unit
Ahead now (some end) = now < end

-- The reasons for which a workspace may write.
pub data Entitled (now : ℕ) (org : OrgView) : Type 0 where
  exempt : is_exempt org.slug ≡ true → Entitled now org
  -- it predates the trial
  unbilled : org.subscription ≡ none → Entitled now org
  in_trial :
      (s : SubView)
      → org.subscription ≡ some s
      → s.status ≡ SubscriptionStatus.trialing
      → Ahead now s.current_period_end
      → Entitled now org
  -- a card renews it, whatever its date
  renewing :
      (s : SubView) (code : ℕ)
      → org.subscription ≡ some s
      → s.status ≡ SubscriptionStatus.active
      → s.provider_subscription_id ≡ some code
      → Entitled now org
  paid_month :
      (s : SubView)
      → org.subscription ≡ some s
      → s.status ≡ SubscriptionStatus.active
      → Ahead now s.current_period_end
      → Entitled now org

reached-Ahead : (now : ℕ) (e : Option ℕ) → reached now e ≡ false → Ahead now e
reached-Ahead now none h = tt
reached-Ahead now (some e) h = ground arith

Ahead-reached : (now : ℕ) (e : Option ℕ) → Ahead now e → reached now e ≡ false
Ahead-reached now none h = refl
Ahead-reached now (some e) h = ground arith

Entitled-unlocked :
    (now : ℕ) (org : OrgView) → Entitled now org → (decide now (some org)).locked ≡ false
unfolding decide
Entitled-unlocked now org (exempt h) = ground arith
Entitled-unlocked now org (unbilled h) = ground arith
Entitled-unlocked now org (in_trial s h a e) =
    ground (arith, Ahead-reached now s.current_period_end e)
Entitled-unlocked now org (renewing s code h a e) = ground arith
Entitled-unlocked now org (paid_month s h a e) =
    ground (arith, Ahead-reached now s.current_period_end e)

unlocked-Entitled_sub :
    (now : ℕ) (org : OrgView) (s : SubView)
    → is_exempt org.slug ≡ false
    → org.subscription ≡ some s
    → (st : SubscriptionStatus) → s.status ≡ st
    → (decide now (some org)).locked ≡ false
    → Entitled now org
unfolding decide
unlocked-Entitled_sub now org s x h SubscriptionStatus.trialing a l =
    in_trial s h a (reached-Ahead now s.current_period_end (ground arith))
unlocked-Entitled_sub now org s x h SubscriptionStatus.active a l =
    elim (Option-cases s.provider_subscription_id) [
      | inl card ↦ paid_month s h a (reached-Ahead now s.current_period_end (ground arith))
      | inr (code, card) ↦ renewing s code h a card
    ]
unlocked-Entitled_sub now org s x h SubscriptionStatus.past_due a l = absurd (ground arith)
unlocked-Entitled_sub now org s x h SubscriptionStatus.canceled a l = absurd (ground arith)

-- An existing workspace may write exactly when it is exempt, has no subscription row yet, is inside
-- its trial, has a card that renews it, or has a bought month that has not ended.
pub unlocked-iff-Entitled :
    (now : ℕ) (org : OrgView) → ((decide now (some org)).locked ≡ false) ↔ Entitled now org
unlocked-iff-Entitled now org = (forward, Entitled-unlocked now org)
  where
    forward : (decide now (some org)).locked ≡ false → Entitled now org
    forward l = elim (Bool-cases (is_exempt org.slug)) [
      | inl x ↦ exempt x
      | inr x ↦ elim (Option-cases org.subscription) [
        | inl none_yet ↦ unbilled none_yet
        | inr (s, h) ↦ unlocked-Entitled_sub now org s x h s.status refl l
      ]
    ]
