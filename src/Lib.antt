-- ===== src/Lib.antt =====
-- istio-oidc: an authorization server for Istio that logs users in by OpenID Connect. This library
-- models the server's logic and proves what it does.
--
-- The parts and how they interact. Controllers (controller/accesspolicy) turn AccessPolicy and
-- OpenIDProvider resources (api) into policies (state/accesspolicy) and providers
-- (state/openidprovider). For each request the proxy asks the authorization server (auth), which
-- reads the policy and the session of the request's bearer token (state/session), sends the user to
-- the provider, or takes the tokens of a finished login, stores a session and sends it to the other
-- peers (replication), which keep copies of all sessions.
--
-- The files:
--   Common: Boolean tests, results with errors and panics, lists, and Go's maps as association
--     lists.
--   Net: what is used of net/url and net/http, with their functions as parameters.
--   Session: state/session/store.go. The record SessionStore is `sessionStore`; get, set, stream
--     and clean are its methods, with one helper for each step of `Set` and each loop. Histories
--     has the store after any calls, Walking the goroutine of `Stream` and Sweeping a round of
--     cleaning with calls of `Set` between their steps, and Locking the two locks of the store and
--     the goroutines at them.
--   Replication: Maps is replication/maps.go, Latest is replication/self.go, Stream has the
--     handlers of replication/server.go and `streamSessions` of replication/connection.go; Exchange
--     puts client and server together. Lookup is lookup.go, Peers has peers.go and the round of
--     worker.go, Handshaking has `Handshake` of server.go and `update` of connection.go, and
--     Retrying its repetition. Arriving is `SetSession` in any order. Connecting has one connection
--     as the goroutines of connection.go that run for it, and `track` of worker.go: a state Link,
--     and a step for each goroutine and each answer.
--   OpenId: Chars and Path are state/openidprovider/path.go, Roles is roles.go, Provider is
--     struct.go and convert.go, Requesting is request.go, Token is token.go.
--   Api: api/accesspolicy.go; Provider has the pattern of references to providers, Validation the
--     Validate methods.
--   AccessPolicy: state/accesspolicy, with convert.go and store.go.
--   Worker: controller/accesspolicy/worker.go.
--   Auth: the auth package. Roles is auth/roles.go, Messages is messages.go and server.go,
--     Authenticate and SetToken have the steps of check.go and jwt.go, Check has the decision and
--     serverv2.go; Roaming follows a session to another peer, and Signer is a signer for the runs.
--   Leader: controller/accesspolicy/leader.go, gateway.go, helpers.go and envoyfilter.go.
--   Mappers: controller/accesspolicy/mappers.go.
--   EnvoyFilter: controller/envoyfilter/envoyfilter.go; ClusterName is `parseIstioClusterName`,
--     Protobuf is protobuf.go, Serving follows a patch to the proxy and the server, Proxy is a proxy
--     for the runs, and Reconciling is reconciler.go and mappers.go.
--   Watching: the predicates of controller/predicate and the two files register.go.
--   Config: config/struct.go, normalize.go and address.go.
--   Errors: log/errors/wrapper.go.
-- Each part has a module Examples with runs at concrete inputs.
--
-- Numbers are natural numbers; the serial of the session store wraps at 2 ^ 64 as its uint64 does.
-- A time is the number of nanoseconds since Go's zero time, and an expiry in a token the seconds that
-- go-jose keeps of it (new_numeric_date of AuthLib); the durations of the configuration are
-- integers (Config.ℤ). A method under a mutex is one step, except in Session.Walking, Sweeping and
-- Locking. Go's maps are association lists, and every order of a range over a map is the order of
-- some list. Strings and byte slices are texts; a rune slice is a text read from its front. The
-- loops of the role path parser run on fuel, as much as the text has characters and one more round
-- for the outer loop: each round takes a character at least. All other loops are structural
-- recursion; the loops that other goroutines may interrupt are steps of a relation.
--
-- Parameters: the tables of the unicode package (UnicodeTables), protobuf timestamps (Timestamps),
-- go-jose and the request for keys (Jose), net/http (Http), net/url (UrlLib), the signer, oauth2
-- and the digest (AuthLib), the cluster's client (Cluster), the resolver (Settings of Lookup), the
-- answers that the leader and the reconciler of filters get (LeaderCluster, FilterCluster, the
-- latter with sort.Slice and reflect.DeepEqual), package net and the addresses of the system
-- (System), the predicates of the controller runtime (Runtime), and the formats of numbers
-- (FilterSettings). Laws that a theorem needs of them are its hypotheses or a field of the record:
-- as_time-new of Timestamps, HasSyntax of the tables, IsSigning of the signer (what it signs reads
-- back, up to the order of a map), IsSending of the proxy (it sends a route's context_extensions),
-- IsOrderly of sort.Slice and reflect.DeepEqual.
--
-- Not modelled: main.go and the start of the controllers, which wire the parts together; reading
-- the configuration file, which is I/O; the generators of manifests; and logging, metrics, tracing
-- and the dashboard, which no decision reads.
pub mod Common
pub mod Net
pub mod Session
pub mod Replication
pub mod OpenId
pub mod Api
pub mod AccessPolicy
pub mod Worker
pub mod Auth
pub mod EnvoyFilter
pub mod Leader
pub mod Mappers
pub mod Config
pub mod Watching
pub mod Errors
