-- ===== src/Leader/Finalizing.antt =====
-- What the leader does with a policy's finalizer.
use istio_oidc.Common.{
  String, true, false, List, [], ◌∷◌, ok, if◌then◌else◌, ◌==◌, ◌≡◌, arith, eq_iff,
}
use istio_oidc.Api.{ApiAccessPolicy}
use istio_oidc.Worker.{found}
use istio_oidc.Leader.{
  LeaderCluster, Leader, Write, update_policy, write, contains, remove, finalizer, add_finalizer,
  remove_finalizer, reconcile_leader,
}

contains-remove :
    (list : List String) (target other : String)
    → contains (remove list target) other ≡ (if target == other then false else contains list other)
unfolding contains remove
contains-remove [] target other = ground arith
contains-remove (x ∷ list) target other =
    ground (
      arith,
      contains-remove list target other,
      eq_iff x target,
      eq_iff x other,
      eq_iff target other,
    )

-- Of a policy that is being deleted and has the finalizer, the leader writes the policy back once,
-- without the finalizer and with its other finalizers, and does nothing else, where the cluster
-- accepts the write.
pub reconcile_leader-remove :
    (k : LeaderCluster) (ap : ApiAccessPolicy) (l : Leader) (other : String)
    → ap.deleting ≡ true
    → contains ap.finalizers finalizer ≡ true
    → ((w : Write) → k.accepts w ≡ true)
    → (reconcile_leader k (found ap) l ≡ (
      record l {
        writes =
            update_policy (record ap { finalizers = remove ap.finalizers finalizer }) ∷ l.writes;
      },
      ok tt,
    ))
      × (contains (remove ap.finalizers finalizer) other
          ≡ (if finalizer == other then false else contains ap.finalizers other))
unfolding reconcile_leader add_finalizer remove_finalizer write
reconcile_leader-remove k ap l other deleting has accepted = (
  ground (
    arith,
    deleting,
    has,
    accepted (update_policy (record ap { finalizers = remove ap.finalizers finalizer })),
  ),
  contains-remove ap.finalizers finalizer other,
)
