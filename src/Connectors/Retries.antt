-- ===== src/Connectors/Retries.antt =====
-- How often connectors/http.go tries a callback.
use goscheduler.Shared.{
  ℕ, suc, ◌-◌, ◌≤◌, ◌≡◌, refl, arith, none, some, true, false, ◌⊎◌, inl, inr, Bool-cases, Below,
}
use goscheduler.Connectors.Http.{Answer, is_success, should_retry, retry_loop, retry_post}

-- When the request can be made, a callback ends within three attempts: with the answer to the last of
-- them, which is the first success or the third failure; all attempts before it failed.
pub retry_post_lem :
    (client : ℕ → Answer)
    → (n : ℕ) × (retry_post none client ≡ some (n, client n))
      × (1 ≤ n)
      × (n ≤ 3)
      × ((is_success (client n) ≡ true) ⊎ (n ≡ 3))
      × Below (λ k. is_success (client (suc k)) ≡ false) (n - 1)
unfolding retry_post retry_loop should_retry
retry_post_lem client = elim (Bool-cases (is_success (client 1))) [
  | inl a ↦ (1, rw a refl, omega arith, omega arith, inl a, tt)
  | inr a ↦ elim (Bool-cases (is_success (client 2))) [
    | inl b ↦ (2, rw (a, b) refl, omega arith, omega arith, inl b, (tt, a))
    | inr b ↦ (3, rw (a, b) refl, omega arith, omega arith, inr refl, ((tt, a), b))
  ]
]
