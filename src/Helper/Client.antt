-- ===== src/Helper/Client.antt =====
-- The Kubernetes client at the resource behind the pointer: a reply is written over it.
use edp_gerrit_operator.Base.{String}
use edp_gerrit_operator.World.{Env, Call}
use edp_gerrit_operator.Exec.{M, ◌>>=◌, call, this, assign}

module _ {O : Type 0} (env : Env O) where
  -- `client.Get(ctx, key, &instance)`
  unfoldable pub get_instance : String → String → M O (Unit {0})
  unfolding ◌>>=◌
  get_instance namespace name = do
    o ← call (Call.get namespace name) (λ t. env.get t namespace name)
    assign o

  -- `client.Update(ctx, &instance)`
  unfoldable pub update_instance : M O (Unit {0})
  unfolding ◌>>=◌
  update_instance = do o ← this; reply ← call (Call.update o) (λ t. env.update t o); assign reply

  -- `client.Status().Update(ctx, &instance)`
  unfoldable pub update_instance_status : M O (Unit {0})
  unfolding ◌>>=◌
  update_instance_status = do
    o ← this
    reply ← call (Call.update_status o) (λ t. env.update_status t o)
    assign reply
