-- ===== src/Work/Retry.antt =====
-- src/uploader/worker.rs: how long to wait before the next attempt.
use native.Mathlib.Numerals.{unary_clauses}
use bilive_rec.Prelude.{
  ℕ, zero, suc, refl, ◌+◌, ◌-◌, ◌*◌, ◌%◌, ◌^◌, ◌≤◌, ◌≡◌, min, count_where, arith, Bool-cases, inl,
  inr, ltb,
}
use bilive_rec.Model.Segment.{Segment, is_retry}
use bilive_rec.Model.Submission.{Submission, is_retry as is_submission_retry}

abbrev pub retry_base_seconds : ℕ
retry_base_seconds = 30

abbrev pub retry_max_seconds : ℕ
retry_max_seconds = 30 * 60

-- The product is at most 30 * 2 ^ 16, so that it does not saturate.
unfoldable pub retry_delay_seconds : ℕ → ℕ
retry_delay_seconds failures =
    let exponent = min (failures - 1) 16 in
    min (retry_base_seconds * 2 ^ exponent) retry_max_seconds

-- count().saturating_add(1) as u32
unfoldable pub next_upload_failure_count : Segment → ℕ
unfolding count_where is_retry
next_upload_failure_count segment =
    (count_where (λ a. is_retry a.outcome) segment.upload_attempts + 1) % 2 ^ 32

unfoldable pub next_submission_failure_count : Submission → ℕ
unfolding count_where is_submission_retry
next_submission_failure_count submission =
    (count_where (λ a. is_submission_retry a.outcome) submission.attempts + 1) % 2 ^ 32

pow_suc : (n : ℕ) → 2 ^ suc n ≡ 2 * 2 ^ n
pow_suc n = simp unary_clauses (omega arith)

pow_pos : (n : ℕ) → 1 ≤ 2 ^ n
pow_pos zero = omega arith
pow_pos (suc n) = omega (arith, pow_suc n, pow_pos n)

-- Up to the sixteenth failure the exponent counts them, and from then on the delay is at its limit.
doubles :
    (n : ℕ) → min (30 * 2 ^ min (suc n) 16) 1_800 ≡ min (2 * min (30 * 2 ^ min n 16) 1_800) 1_800
doubles n = elim (Bool-cases (ltb n 16)) [
  | inl below ↦
      let a : min n 16 ≡ n = ground (arith, below) in
      let b : min (suc n) 16 ≡ suc n = ground (arith, below) in rw (a, b) (omega (arith, pow_suc n))
  | inr above ↦
      let a : min n 16 ≡ 16 = ground (arith, above) in
      let b : min (suc n) 16 ≡ 16 = ground (arith, above) in rw (a, b) refl
]

-- The first failure is retried after 30 seconds, each further one after twice as long up to 1800
-- seconds, and no delay is below the first or above the last.
pub retry_delay_seconds_lem :
    (failures : ℕ)
    → (retry_delay_seconds 1 ≡ retry_base_seconds)
      × (retry_delay_seconds (suc (suc failures))
          ≡ min (2 * retry_delay_seconds (suc failures)) retry_max_seconds)
      × (retry_base_seconds ≤ retry_delay_seconds failures)
      × (retry_delay_seconds failures ≤ retry_max_seconds)
unfolding retry_delay_seconds
retry_delay_seconds_lem failures = (
  refl,
  (let a : suc (suc failures) - 1 ≡ suc failures = omega arith in
      let b : suc failures - 1 ≡ failures = omega arith in rw (a, b) (doubles failures)),
  omega (arith, pow_pos (min (failures - 1) 16)),
  omega arith,
)
