-- ===== src/Watching.antt =====
-- Which changes of the cluster wake the controllers: the predicates of controller/predicate, and what
-- the controllers watch (register.go of controller/accesspolicy and controller/envoyfilter).
mod Waking
mod Examples
use istio_oidc.Common.{
  String, Bool, true, false, ◌&&◌, List, [], ◌∷◌, ◌++◌, Option, none, some, Result, ok, err, panic,
  ◌>>=◌, wrap, or_else, if◌then◌else◌, ◌==◌,
}
use istio_oidc.Common.Map
use istio_oidc.Common.Map.{GoMap}
use istio_oidc.Config.{Controller}

-- The metadata of an object.
pub record Meta : Type 0 where
  pub namespace : String
  pub name : String
  pub labels : GoMap String

-- `event.CreateEvent` and its kin; an update has the old and the new object.
pub data Event : Type 0 where
  create : Meta → Event
  delete : Meta → Event
  update : Meta → Meta → Event
  generic : Meta → Event

-- `HasLabels.check`, the loop over the labels.
unfoldable pub check : GoMap String → GoMap String → Bool
check [] labels = true
check ((k, v) ∷ p) labels =
    let rest = check p labels in
    elim (Map.get k labels) [ none ↦ false | some w ↦ if w == v then rest else false ]

-- The methods of `HasLabels`.
unfoldable pub has_labels : GoMap String → Event → Bool
unfolding check
has_labels p (create m) = check p m.labels
has_labels p (delete m) = check p m.labels
has_labels p (update old new) = check p new.labels
has_labels p (generic m) = check p m.labels

-- The methods of `IsNamed`.
unfoldable pub is_named : String → Event → Bool
is_named name (create m) = m.name == name
is_named name (delete m) = m.name == name
is_named name (update old new) = new.name == name
is_named name (generic m) = m.name == name

-- The methods of `InNamespace`.
unfoldable pub in_namespace : String → Event → Bool
in_namespace namespace (create m) = m.namespace == namespace
in_namespace namespace (delete m) = m.namespace == namespace
in_namespace namespace (update old new) = new.namespace == namespace
in_namespace namespace (generic m) = m.namespace == namespace

-- The predicates of the controller runtime, which alias.go passes on.
pub record Runtime : Type 0 where
  pub version_changed : Event → Bool
  pub generation_changed : Event → Bool

pub data Kind : Type 0 where
  access_policy openid_provider gateway secret envoy_filter : Kind

-- What makes the requests of an event: its object itself, or a mapper.
pub data Handler : Type 0 where
  same_object gateway_mapper secret_mapper provider_mapper filter_mapper policy_mapper : Handler

-- A call of `Watch`: the kind of objects, the handler and the predicates.
pub record Watch : Type 0 where
  pub kind : Kind
  pub handler : Handler
  pub predicates : List (Event → Bool)

module _ (lib : Runtime) where
  -- `registerLeader`
  unfoldable pub leader_watches : Controller → List Watch
  unfolding in_namespace has_labels
  leader_watches c =
      record { kind = access_policy; handler = same_object; predicates = lib.version_changed ∷ [] }
      ∷ (record {
        kind = gateway;
        handler = gateway_mapper;
        predicates = lib.generation_changed ∷ [];
      }
          ∷ (record {
            kind = secret;
            handler = secret_mapper;
            predicates = lib.version_changed ∷ [];
          }
              ∷ (record {
                kind = envoy_filter;
                handler = filter_mapper;
                predicates =
                    lib.generation_changed
                    ∷ (in_namespace c.istio_root_namespace
                        ∷ (has_labels (or_else c.envoy_filter_labels []) ∷ []));
              }
                  ∷ [])))

  -- `registerWorker`
  unfoldable pub worker_watches : List Watch
  worker_watches =
      record { kind = access_policy; handler = same_object; predicates = lib.version_changed ∷ [] }
      ∷ (record {
        kind = openid_provider;
        handler = provider_mapper;
        predicates = lib.generation_changed ∷ [];
      }
          ∷ (record {
            kind = secret;
            handler = secret_mapper;
            predicates = lib.version_changed ∷ [];
          }
              ∷ []))

  -- `register` of controller/envoyfilter
  unfoldable pub filter_watches : Controller → List Watch
  unfolding in_namespace has_labels
  filter_watches c =
      record {
        kind = envoy_filter;
        handler = same_object;
        predicates =
            lib.generation_changed
            ∷ (in_namespace c.istio_root_namespace
                ∷ (has_labels (or_else c.envoy_filter_labels []) ∷ []));
      }
      ∷ (record {
        kind = access_policy;
        handler = policy_mapper;
        predicates = lib.version_changed ∷ [];
      }
          ∷ [])

-- The calls of `Watch` in a row: the first error ends the registration.
unfoldable pub watch_all : (Watch → Result (Unit {0})) → List Watch → Result (Unit {0})
watch_all watch [] = ok tt
watch_all watch (w ∷ ws) = watch w >>= λ _. watch_all watch ws

-- `registerLeader`, `registerWorker` and `register`: the controller, its watches, and `mgr.Add`.
unfoldable pub register_watches :
    Result (Unit {0})
    → (Watch → Result (Unit {0}))
    → Result (Unit {0})
    → List Watch
    → Result (Unit {0})
unfolding watch_all
register_watches new_unmanaged watch add ws =
    new_unmanaged >>= (λ _. watch_all watch ws >>= λ _. add)

-- `Register` of controller/accesspolicy: the schemes, the leader's and the worker's controller.
unfoldable pub register_policies :
    List (Result (Unit {0})) → Result (Unit {0}) → Result (Unit {0}) → Result (Unit {0})
register_policies [] leader worker = wrap "failed making AccessPolicy controller" leader >>= λ _.
    wrap "failed making AccessPolicy controller" worker
register_policies (scheme ∷ schemes) leader worker =
    wrap "failed making AccessPolicy controller" scheme >>= λ _.
    register_policies schemes leader worker

-- `Register` of controller/envoyfilter.
unfoldable pub register_filters : Result (Unit {0}) → Result (Unit {0}) → Result (Unit {0})
register_filters scheme controller = wrap "failed making EnvoyFilter controller" scheme >>= λ _.
    wrap "failed making EnvoyFilter controller" controller

-- The handlers that an event of an object wakes: those of its kind whose predicates all accept it.
abbrev pub accepted : List (Event → Bool) → Event → Bool
accepted [] e = true
accepted (p ∷ ps) e = p e && accepted ps e

unfoldable pub same_kind : Kind → Kind → Bool
same_kind access_policy access_policy = true
same_kind openid_provider openid_provider = true
same_kind gateway gateway = true
same_kind secret secret = true
same_kind envoy_filter envoy_filter = true
same_kind _ _ = false

unfoldable pub woken : List Watch → Kind → Event → List Handler
unfolding same_kind
woken [] k e = []
woken (w ∷ ws) k e =
    let rest = woken ws k e in
    if same_kind w.kind k && accepted w.predicates e then w.handler ∷ rest else rest
