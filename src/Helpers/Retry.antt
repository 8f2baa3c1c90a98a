-- ===== src/Helpers/Retry.antt =====
-- src/common/utils/helpers.ts: `retry`. The function, the pause and the report of a retry are
-- operations on a state.
use backend_gateway.Base.{ℕ, zero, suc, ◌+◌, ◌*◌, ◌⊎◌, inl, inr}
use backend_gateway.Helpers.Numbers.{min}

pub record RetryOptions : Type 0 where
  pub retries : ℕ
  pub delay : ℕ
  pub max_delay : ℕ
  pub backoff : ℕ

abbrev pub retry_defaults : RetryOptions
retry_defaults = record { retries = 3; delay = 1000; max_delay = 30000; backoff = 2 }

abbrev pub pow : ℕ → ℕ → ℕ
pow b zero = 1
pow b (suc n) = b * pow b n

abbrev pub delay_ms : RetryOptions → ℕ → ℕ
delay_ms o attempt = min (o.delay * pow o.backoff attempt) o.max_delay

-- What the loop calls: the function, which gives an error or a value, the report and the pause.
pub record Effects (S E T : Type 0) : Type 0 where
  pub fn : S → S × (E ⊎ T)
  pub on_retry : E → ℕ → S → S
  pub sleep : ℕ → S → S

module _ {S E T : Type 0} (f : Effects S E T) (o : RetryOptions) where
  -- The loop from an attempt on, with so many retries left.
  unfoldable pub retry_from : ℕ → ℕ → S → S × (E ⊎ T)
  retry_from zero attempt s = f.fn s
  retry_from (suc left) attempt s =
      let (s', result) = f.fn s in
      elim result [
        | inr value ↦ (s', inr value)
        | inl error ↦
            retry_from left (suc attempt)
              (f.sleep (delay_ms o attempt) (f.on_retry error (attempt + 1) s'))
      ]

  unfoldable pub retry : S → S × (E ⊎ T)
  unfolding retry_from
  retry s = retry_from o.retries 0 s
