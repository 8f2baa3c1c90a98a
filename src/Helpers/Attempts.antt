-- ===== src/Helpers/Attempts.antt =====
-- What `retry` of src/common/utils/helpers.ts calls, and what it gives.
use backend_gateway.Base.{
  ℕ, zero, suc, ◌+◌, ◌≤◌, List, [], ◌∷◌, ◌≡◌, refl, arith, All, length, ◌⊎◌, inl, inr,
}
use backend_gateway.Helpers.Retry.{RetryOptions, delay_ms, Effects, retry_from, retry}

-- What was called: how often the function was, and how long the pauses were, the last first.
pub record Calls : Type 0 where
  pub made : ℕ
  pub pauses : List ℕ

abbrev pub untried : Calls
untried = record { made = 0; pauses = [] }

-- A function whose calls end as a list of outcomes by number says.
abbrev pub recorded : {E T : Type 0} → (ℕ → E ⊎ T) → Effects Calls E T
recorded outcome = record {
  fn = λ s. (record s { made = s.made + 1 }, outcome s.made);
  on_retry = λ e n s. s;
  sleep = λ ms s. record s { pauses = ms ∷ s.pauses };
}

-- The outcome of the first call that succeeds, or else that of the last one.
abbrev pub first_success : {E T : Type 0} → (ℕ → E ⊎ T) → ℕ → ℕ → E ⊎ T
first_success outcome zero n = outcome n
first_success outcome (suc left) n = elim (outcome n) [
  | inr value ↦ inr value
  | inl error ↦ first_success outcome left (n + 1)
]

outcome-cases : {E T : Type 0} (r : E ⊎ T) → ((e : E) × (r ≡ inl e)) ⊎ ((v : T) × (r ≡ inr v))
outcome-cases (inl e) = inl (e, refl)
outcome-cases (inr v) = inr (v, refl)

module _ {E T : Type 0} (outcome : ℕ → E ⊎ T) (o : RetryOptions) where
  delay_ms-le : (n : ℕ) → delay_ms o n ≤ o.max_delay
  delay_ms-le n = ground arith

  outcome-retry_from :
      (left attempt : ℕ) (s : Calls)
      → (retry_from (recorded outcome) o left attempt s).1 ≡ first_success outcome left s.made
  unfolding retry_from
  outcome-retry_from zero attempt s = refl
  outcome-retry_from (suc left) attempt s = elim (outcome-cases (outcome s.made)) [
    | inl (e, h) ↦
        rw (h, first_success)
          (outcome-retry_from left (suc attempt)
            (record { made = s.made + 1; pauses = delay_ms o attempt ∷ s.pauses }))
    | inr (v, h) ↦ rw (h, first_success) refl
  ]

  calls-retry_from :
      (left attempt : ℕ) (s : Calls)
      → All (λ ms. ms ≤ o.max_delay) s.pauses
      → ((retry_from (recorded outcome) o left attempt s).0.made ≤ s.made + suc left)
        × (length (retry_from (recorded outcome) o left attempt s).0.pauses + suc s.made
            ≡ length s.pauses + (retry_from (recorded outcome) o left attempt s).0.made)
        × All (λ ms. ms ≤ o.max_delay) (retry_from (recorded outcome) o left attempt s).0.pauses
  unfolding retry_from
  calls-retry_from zero attempt s h = (omega arith, omega arith, h)
  calls-retry_from (suc left) attempt s h = elim (outcome-cases (outcome s.made)) [
    | inl (e, k) ↦ rw k (
        let (a, b, c) =
          calls-retry_from left (suc attempt)
            (record { made = s.made + 1; pauses = delay_ms o attempt ∷ s.pauses })
            (delay_ms-le attempt, h) in
        (omega arith, omega arith, c))
    | inr (v, k) ↦ rw k (omega arith, omega arith, h)
  ]

  -- `retry` gives the first success of at most one call more than the retries, or else the error of
  -- the last call. It makes one call more than pauses, and no pause is longer than the limit.
  pub retry-first_success :
      ((retry (recorded outcome) o untried).1 ≡ first_success outcome o.retries 0)
      × ((retry (recorded outcome) o untried).0.made ≤ o.retries + 1)
      × (length (retry (recorded outcome) o untried).0.pauses + 1
          ≡ (retry (recorded outcome) o untried).0.made)
      × All (λ ms. ms ≤ o.max_delay) (retry (recorded outcome) o untried).0.pauses
  unfolding retry
  retry-first_success =
      let (a, b, c) = calls-retry_from o.retries 0 (record { made = 0; pauses = [] }) tt in
      (
        outcome-retry_from o.retries 0 (record { made = 0; pauses = [] }),
        omega arith,
        omega arith,
        c,
      )
