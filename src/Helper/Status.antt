-- ===== src/Helper/Status.antt =====
-- Requeue times and failure counts (controllers/helper/status.go). Times are nanoseconds.
use edp_gerrit_operator.Base.{ℕ, zero, suc, ◌+◌, ◌*◌, ℤ, pos, negsuc, String, ltb, ◌=?◌}
use edp_gerrit_operator.Base.{if◌then◌else◌, ◌≡◌, refl, ◌≤◌, ◌<◌, arith}
use edp_gerrit_operator.Api.Specs.{GerritGroupMemberStatus}

abbrev pub status_ok : String
status_ok = "OK"

-- `MaxTimeOut`, an hour
abbrev pub max_time_out : ℕ
max_time_out = 3600 * 1000000000

abbrev pub max_int64 : ℕ
max_int64 = 9223372036854775807

-- `failures++` on an `int64`
unfoldable pub increment : ℤ → ℤ
increment (pos n) = if n =? max_int64 then negsuc max_int64 else pos (n + 1)
increment (negsuc zero) = pos 0
increment (negsuc (suc n)) = negsuc n

module _ (exp_timeout : ℤ → ℤ) where
  -- `getTimeout`, from the value of the exponential as an `int64`
  clamp : ℤ → ℕ
  clamp (pos zero) = max_time_out
  clamp (pos (suc n)) = if ltb max_time_out (suc n) then max_time_out else suc n
  clamp (negsuc n) = max_time_out

  unfoldable pub get_timeout : ℤ → ℕ
  unfolding clamp
  get_timeout factor = clamp (exp_timeout factor)

  -- `SetFailureCount`: the time to wait, and the status with one failure more.
  unfoldable pub set_failure_count : GerritGroupMemberStatus → ℕ × GerritGroupMemberStatus
  unfolding get_timeout increment
  set_failure_count s =
      (get_timeout s.failure_count, record s { failure_count = increment s.failure_count })

-- `SetSuccessStatus`
unfoldable pub set_success_status : GerritGroupMemberStatus → GerritGroupMemberStatus
set_success_status s = record { value = status_ok; failure_count = pos 0 }

-- `n` failed reconciliations after a success.
abbrev pub fail_times : (ℤ → ℤ) → ℕ → GerritGroupMemberStatus → GerritGroupMemberStatus
fail_times f zero s = s
fail_times f (suc n) s = (set_failure_count f (fail_times f n s)).1

-- The requeue time lies between a nanosecond and an hour, whatever the exponential comes to, also
-- where the conversion to an integer overflows.
pub get_timeout_bounds :
    (exp_timeout : ℤ → ℤ) (factor : ℤ)
    → (0 < get_timeout exp_timeout factor) × (get_timeout exp_timeout factor ≤ max_time_out)
unfolding get_timeout
get_timeout_bounds exp_timeout factor = ground arith

-- After a success and `n` failures, `n` below 2 ^ 63, the count is `n`: it restarts with each success.
pub failure_count-fail_times :
    (exp_timeout : ℤ → ℤ) (n : ℕ) (s : GerritGroupMemberStatus)
    → n ≤ max_int64
    → (fail_times exp_timeout n (set_success_status s)).failure_count ≡ pos n
unfolding set_failure_count set_success_status
failure_count-fail_times f zero s h = refl
failure_count-fail_times f (suc n) s h =
    ground (arith, failure_count-fail_times f n s (omega arith))
