-- ===== src/Leader/Examples.antt =====
-- The leader at a concrete policy.
use istio_oidc.Common.{String, Elem, true, false, [], ◌∷◌, some, ok, if◌then◌else◌, ◌==◌, ◌≡◌, refl}
use istio_oidc.Common.Map.{GoMap}
use istio_oidc.Api.{ApiAccessPolicy}
use istio_oidc.Api.Examples.{plain_net, shop}
use istio_oidc.AccessPolicy.Examples.{shop_secret}
use istio_oidc.Worker.{found, not_found}
use istio_oidc.Leader.{
  LeaderCluster, Leader, Gateway, update_status, update_policy, update_secret, contains, remove,
  finalizer, renew_secret, reconcile_leader,
}
use istio_oidc.Leader.Finalizing.{reconcile_leader-remove}
use istio_oidc.Leader.Living.{specified, exposed, HasFilter, reconcile_leader-live}
use istio_oidc.Leader.Secrets.{IsRenewed, renew_secret-IsRenewed}

abbrev fresh_key : String
fresh_key = "0123456789abcdef0123456789abcdef0123456789abcdef0123456789abcdef"

abbrev willing : LeaderCluster
willing = record {
  net = plain_net;
  accepts = λ w. true;
  gateways = λ ns name. not_found;
  secrets = λ ns name. found (some shop_secret);
  filters = some [];
  random_key = some fresh_key;
  address = λ host port. host;
  same_labels = λ a b. false;
}

abbrev idle : Leader
idle = record { writes = []; events = [] }

abbrev leaving : ApiAccessPolicy
leaving = record shop { deleting = true; finalizers = "other" ∷ finalizer ∷ [] }

leaving-contains : contains leaving.finalizers finalizer ≡ true
unfolding contains
leaving-contains = refl

reconcile_leader-remove_example :
    (reconcile_leader willing (found leaving) idle ≡ (
      record idle {
        writes =
            update_policy (record leaving { finalizers = remove leaving.finalizers finalizer })
            ∷ [];
      },
      ok tt,
    ))
    × (contains (remove leaving.finalizers finalizer) "other"
        ≡ (if finalizer == "other" then false else contains leaving.finalizers "other"))
reconcile_leader-remove_example =
    reconcile_leader-remove willing leaving idle "other" refl leaving-contains (λ w. refl)

renew_secret-IsRenewed_example :
    (out : GoMap String) × (m : Leader) × (renew_secret willing shop (some shop_secret) idle
      ≡ (m, ok tt))
    × (m.writes ≡ update_secret "credentials" (some out) ∷ [])
    × IsRenewed willing "tokenKey" shop_secret fresh_key "clientID" out
renew_secret-IsRenewed_example =
    renew_secret-IsRenewed willing shop shop_secret fresh_key "clientID" idle refl refl (λ w. refl)

abbrev ingress : Gateway
ingress = record { selector = ("istio", "ingress") ∷ []; servers = ("shop.example" ∷ [], 443) ∷ [] }

abbrev populated : LeaderCluster
populated = record willing {
  gateways = λ ns name. found ingress;
  secrets = λ ns name. found (some shop_secret);
}

reconcile_leader-live_example :
    (m : Leader) × (reconcile_leader populated (found shop) idle ≡ (m, ok tt))
    × (contains (specified shop).finalizers finalizer ≡ true)
    × Elem (update_policy (specified shop)) m.writes
    × Elem (update_status (exposed populated shop ingress)) m.writes
    × HasFilter populated ingress.selector [] m.writes
reconcile_leader-live_example =
    reconcile_leader-live populated shop ingress shop_secret [] fresh_key idle refl refl refl refl
      refl refl (λ w. refl)
