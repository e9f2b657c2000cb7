-- ===== src/Net/Backoff.antt =====
-- crates/clipse-net/src/transport.rs: the delays between attempts to reach a peer, and which failures are
-- worth another attempt.
pub mod Delays
use clipse.Prelude.{ℕ, ◌+◌, ◌*◌, ◌^◌, Bool, true, false, List, min, ltb, if◌then◌else◌}
use clipse.Prelude.Words.{u32_max, u64_max, saturating_add}

pub record Backoff : Type 0 where
  pub base_ms : ℕ
  pub max_ms : ℕ
  pub attempt : ℕ

-- `Backoff::new` and the default.
abbrev pub new_backoff : ℕ → ℕ → Backoff
new_backoff base_ms max_ms = record { base_ms = base_ms; max_ms = max_ms; attempt = 0 }

abbrev pub default_backoff : Backoff
default_backoff = new_backoff 500 60000

-- `1u64.checked_shl(attempt).unwrap_or(u64::MAX)`
unfoldable pub shift_factor : ℕ → ℕ
shift_factor attempt = if ltb attempt 64 then 2 ^ attempt else u64_max

-- `next_delay_ms`.
unfoldable pub next_delay_ms : Backoff → Backoff × ℕ
unfolding shift_factor
next_delay_ms b = (
  record b { attempt = saturating_add u32_max b.attempt 1 },
  min (min u64_max (b.base_ms * shift_factor b.attempt)) b.max_ms,
)

-- `reset`.
unfoldable pub reset : Backoff → Backoff
reset b = record b { attempt = 0 }

-- `DialError`, without what it tells about the failure.
pub data DialError : Type 0 where
  unreachable rejected not_paired no_candidates : DialError

-- `is_retryable`.
unfoldable pub is_retryable : DialError → Bool
is_retryable unreachable = true
is_retryable _ = false
