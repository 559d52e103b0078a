-- ===== src/Replication/Connecting/Examples.antt =====
-- One connection, step by step.
use istio_oidc.Common.{ℕ, ◌≤◌, true, false, [], ◌∷◌, ◌≡◌, refl, sum}
use istio_oidc.Session.Examples.{fresh}
use istio_oidc.Replication.Maps.{Timestamps, latest_from_proto}
use istio_oidc.Replication.Latest.{Self, new_self, needs_update}
use istio_oidc.Replication.Connecting.{
  other_code, greeting, failing, lowering, recovering, failed, steady, Link, new_link, on_greeting,
  on_failing, on_lowering, announce, wake, advance, Step, run, Reach, here, inside,
}
use istio_oidc.Replication.Connecting.Recovering.{recovers, bit, Reach-recovers}
use istio_oidc.Replication.Connecting.Waiting.{lost_broadcast}

abbrev plain : Timestamps
plain = record { Timestamp = ℕ; new = λ t. t; as_time = λ t. t; as_time-new = λ t. refl }

abbrev peer : Self
peer = new_self "self" "10.0.0.1:8080" fresh

-- The handshake of a new connection has failed, and `reestablish` is about to wait for the transport.
abbrev recovered : Link
recovered = record (new_link peer) { spent = true; tasks = recovering ∷ [] }

recovered-Reach : Reach plain (new_link peer) recovered
unfolding advance on_greeting on_failing on_lowering announce wake
recovered-Reach =
    inside
      (inside (inside here (run [] [] greeting (failed other_code) refl refl refl))
        (run [] [] (failing other_code) steady refl refl refl))
      (run [] [] (lowering other_code) steady refl refl refl)

Reach-recovers_example : sum recovers recovered.tasks ≤ bit recovered.spent
Reach-recovers_example = Reach-recovers plain peer recovered-Reach

no_news : needs_update peer (latest_from_proto []) ≡ false
unfolding needs_update latest_from_proto
no_news = refl

lost_broadcast_example :
    (l : Link) × Reach plain (new_link peer) l
    × (l.live ≡ true)
    × (l.closed ≡ false)
    × ((u : Link) → ¬ Step plain l u)
lost_broadcast_example = lost_broadcast plain peer [] no_news
