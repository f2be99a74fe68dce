-- ===== src/Controllers/Gateway/Tunnels.antt =====
-- The gateway registry over the pool of SSH tunnels.
use k8s_ssh_gateway_controll.Prelude.{[], ◌∷◌}
use k8s_ssh_gateway_controll.Prelude.Eq.{int_eq, nat_eq}
use k8s_ssh_gateway_controll.Go.Text.{text_eq}
use k8s_ssh_gateway_controll.Ssh.Flags.{SessionFlags, kind_eq}
use k8s_ssh_gateway_controll.Ssh.Pool.{SessionManager}
use k8s_ssh_gateway_controll.Ssh.Pool.Held.{
  IsKept, pool_starts, pool_stops, pool_connects, pool_step, pool_run, Holds, pool_run-Holds,
}
use k8s_ssh_gateway_controll.Controllers.Gateway.Sessions.{ssh_pool, PoolKept}

pub ssh_pool-PoolKept :
    {M : Type 0} (api : SessionManager M) (R : SessionFlags → M → Type 0) (keeps : IsKept api R)
    → PoolKept (ssh_pool api) (Holds api R keeps)
unfolding ssh_pool pool_run pool_step
ssh_pool-PoolKept api R keeps = record {
  by_start = λ p kind fwd h. pool_run-Holds api R keeps p (pool_starts kind fwd ∷ []) h;
  by_stop = λ p kind fwd h. pool_run-Holds api R keeps p (pool_stops kind fwd ∷ []) h;
  by_reconnect = λ p h. pool_run-Holds api R keeps p (pool_connects ∷ []) h;
}
