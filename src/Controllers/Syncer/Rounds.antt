-- ===== src/Controllers/Syncer/Rounds.antt =====
-- The rounds of the synchronisation (controllers/gerritproject/syncer.go).
use edp_gerrit_operator.Base.{ℕ, zero, suc, ◌+◌, ◌*◌, ◌≤◌, arith}
use edp_gerrit_operator.World.{World}
use edp_gerrit_operator.Exec.{M, ◌>>=◌}
use edp_gerrit_operator.Controllers.Syncer

-- Whatever a round costs at most, the rounds that are tried after each
-- other cost at most that, times the attempts.
pub retry_tick_bound :
    {O : Type 0} (cost : World O → ℕ) (k : ℕ) (tick : M O (Unit {0}))
    → ((w : World O) → cost (tick w).1 ≤ k + cost w)
    → (n : ℕ) (w : World O) → cost (Syncer.retry_tick n tick w).1 ≤ n * k + cost w
unfolding Syncer.retry_tick ◌>>=◌
retry_tick_bound cost k tick bound zero w = omega arith
retry_tick_bound cost k tick bound (suc n) w =
    grind (arith, bound w, retry_tick_bound cost k tick bound n (tick w).1)
