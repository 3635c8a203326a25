-- ===== src/Metrics.antt =====
-- internal/metrics/metrics.go: the collectors as a record of values. A counter or histogram vector
-- keeps its observations by label, newest first; Prometheus itself is outside the model.
use tx_submitter.Base.{ℕ, ◌+◌, List, [], ◌∷◌, if◌then◌else◌, ◌==◌}
use tx_submitter.Base.Text.{Text, text_eq}

pub record Metrics : Type 0 where
  pub submission_count : List (Text × ℕ)
  pub submit_latency : List (Text × ℕ)
  pub dead_letter_count : ℕ
  pub active_channel_accounts : ℕ
  pub pending_transactions : ℕ

-- `WithLabelValues(label).Inc()`
abbrev pub increment : Text → List (Text × ℕ) → List (Text × ℕ)
increment label [] = (label, 1) ∷ []
increment label ((l, n) ∷ rest) =
    if l == label then (l, n + 1) ∷ rest else (l, n) ∷ increment label rest

-- The value that the counter of a label has.
abbrev pub count_of : Text → List (Text × ℕ) → ℕ
count_of label [] = 0
count_of label ((l, n) ∷ rest) = if l == label then n else count_of label rest

abbrev pub no_metrics : Metrics
no_metrics = record {
  submission_count = [];
  submit_latency = [];
  dead_letter_count = 0;
  active_channel_accounts = 0;
  pending_transactions = 0;
}

unfoldable pub increment_submission : Text → Metrics → Metrics
increment_submission status m = record m { submission_count = increment status m.submission_count }

unfoldable pub observe_submit_latency : ℕ → Text → Metrics → Metrics
observe_submit_latency seconds status m = record m {
  submit_latency = (status, seconds) ∷ m.submit_latency;
}

unfoldable pub increment_dead_letters : Metrics → Metrics
increment_dead_letters m = record m { dead_letter_count = m.dead_letter_count + 1 }

unfoldable pub set_active_channels : ℕ → Metrics → Metrics
set_active_channels count m = record m { active_channel_accounts = count }

unfoldable pub set_pending : ℕ → Metrics → Metrics
set_pending count m = record m { pending_transactions = count }
