-- ===== src/Metrics.antt =====
-- async_hardened_client/observability.py: the class Metrics.
use python_async_api_barebon.Base.{◌∷◌, ℕ, String, [], ◌==◌, if◌then◌else◌}
use python_async_api_barebon.Base.Dict.{Dict}
use python_async_api_barebon.Base.Float.{Float}
use python_async_api_barebon.Models.{Fields, Value, str, float, int, none_left, field, dict}

pub record Metrics (F : Type 0) : Type 0 where
  pub requests_started : ℕ
  pub requests_succeeded : ℕ
  pub requests_failed_retryable : ℕ
  pub requests_failed_terminal : ℕ
  pub retries_performed : ℕ
  pub dedup_hits : ℕ
  pub dlq_pushes : ℕ
  pub rate_limit_waits : ℕ
  pub rate_limit_wait_seconds_total : F
  pub breaker_short_circuits : ℕ
  pub breaker_state : Dict String
  pub queue_depth : ℕ
  pub queue_max_size : ℕ

module _ {F : Type 0} ⦃o : Float F⦄ where
  -- `Metrics(queue_max_size=n)`
  unfoldable pub new_metrics : ℕ → Metrics F
  new_metrics n = record {
    requests_started = 0;
    requests_succeeded = 0;
    requests_failed_retryable = 0;
    requests_failed_terminal = 0;
    retries_performed = 0;
    dedup_hits = 0;
    dlq_pushes = 0;
    rate_limit_waits = 0;
    rate_limit_wait_seconds_total = o.zero;
    breaker_short_circuits = 0;
    breaker_state = [];
    queue_depth = 0;
    queue_max_size = n;
  }

  -- The entry `success_rate` of the snapshot.
  unfoldable pub success_rate : Metrics F → F
  success_rate m =
      if m.requests_started == 0 then o.zero else o.int_div m.requests_succeeded m.requests_started

module _ {F : Type 0} where
  -- `dict(self.breaker_state)`
  unfoldable pub texts : Dict String → Fields F
  texts [] = none_left
  texts ((k, x) ∷ d) = field k (str x) (texts d)

module _ {F : Type 0} ⦃o : Float F⦄ where
  -- The document of `Metrics.snapshot`; `round4` is `round(x, 4)`.
  unfoldable pub snapshot : (F → F) → Metrics F → Value F
  unfolding texts success_rate
  snapshot round4 m = dict (
      field "requests_started" (int m.requests_started) (
        field "requests_succeeded" (int m.requests_succeeded) (
          field "requests_failed_retryable" (int m.requests_failed_retryable) (
            field "requests_failed_terminal" (int m.requests_failed_terminal) (
              field "retries_performed" (int m.retries_performed) (
                field "dedup_hits" (int m.dedup_hits) (
                  field "dlq_pushes" (int m.dlq_pushes) (
                    field "rate_limit_waits" (int m.rate_limit_waits) (
                      field "rate_limit_wait_seconds_total"
                        (float (round4 m.rate_limit_wait_seconds_total))
                        (field "breaker_short_circuits" (int m.breaker_short_circuits) (
                          field "breaker_state" (dict (texts m.breaker_state)) (
                            field "queue_depth" (int m.queue_depth) (
                              field "queue_max_size" (int m.queue_max_size) (
                                field "success_rate" (float (success_rate m))
                                  none_left))))))))))))))
