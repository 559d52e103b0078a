-- ===== src/Watching/Waking.antt =====
-- Which events of envoy filters wake the controllers.
use istio_oidc.Common.{
  String, Bool, true, false, ◌&&◌, [], ◌∷◌, some, ◌≡◌, ◌↔◌, refl, arith, Elem, inl, inr, or_else,
  sym, ◌∙◌, ◌==◌, eq_iff, Option-cases, if◌then◌else◌,
}
use istio_oidc.Common.Map
use istio_oidc.Common.Map.{GoMap}
use istio_oidc.Config.{Controller}
use istio_oidc.Watching.{
  Meta, Event, create, delete, update, generic, check, has_labels, in_namespace, Runtime,
  envoy_filter, same_object, filter_mapper, leader_watches, filter_watches, accepted, same_kind,
  woken,
}

-- The object of an event; of an update the new one.
abbrev pub subject : Event → Meta
subject (create m) = m
subject (delete m) = m
subject (update old new) = new
subject (generic m) = m

-- Every label is there, with its value.
abbrev pub HasAll : GoMap String → GoMap String → Type 0
HasAll p labels = (k v : String) → Elem (k, v) p → Map.get k labels ≡ some v

check_sound : (p labels : GoMap String) → check p labels ≡ true → HasAll p labels
unfolding check
check_sound [] labels h k v m = absurd m
check_sound ((j, w) ∷ p) labels h k v (inl e) = elim (Option-cases (Map.get j labels)) [
  | inl e' ↦ absurd (ground (arith, e', h))
  | inr (x, e') ↦ ground (arith, e', h, e, eq_iff x w)
]
check_sound ((j, w) ∷ p) labels h k v (inr m) = elim (Option-cases (Map.get j labels)) [
  | inl e' ↦ absurd (ground (arith, e', h))
  | inr (x, e') ↦ check_sound p labels (ground (arith, e', h)) k v m
]

check_complete : (p labels : GoMap String) → HasAll p labels → check p labels ≡ true
unfolding check
check_complete [] labels h = refl
check_complete ((j, w) ∷ p) labels h =
    ground (
      arith,
      h j w (inl refl),
      (eq_iff w w).1 refl,
      check_complete p labels (λ k v m. h k v (inr m)),
    )

has_labels-check : (p : GoMap String) (e : Event) → has_labels p e ≡ check p (subject e).labels
unfolding has_labels
has_labels-check p (create m) = refl
has_labels-check p (delete m) = refl
has_labels-check p (update old new) = refl
has_labels-check p (generic m) = refl

in_namespace-subject : (n : String) (e : Event) → in_namespace n e ≡ ((subject e).namespace == n)
unfolding in_namespace
in_namespace-subject n (create m) = refl
in_namespace-subject n (delete m) = refl
in_namespace-subject n (update old new) = refl
in_namespace-subject n (generic m) = refl

and-true : (a b : Bool) → (a && b) ≡ true → (a ≡ true) × (b ≡ true)
and-true a b h = (ground arith, ground arith)

one_if : {A : Type 0} (b : Bool) (x : A) → ((if b then x ∷ [] else []) ≡ x ∷ []) ↔ (b ≡ true)
one_if true x = (λ h. refl, λ h. refl)
one_if false x = (λ h. cc, λ h. cc)

module _ (lib : Runtime) (c : Controller) where
  -- The event changed the specification of a filter in Istio's namespace with the configured labels.
  abbrev pub Concerns : Event → Type 0
  Concerns e =
      (lib.generation_changed e ≡ true)
      × ((subject e).namespace ≡ c.istio_root_namespace)
      × HasAll (or_else c.envoy_filter_labels []) (subject e).labels

  abbrev passes : Event → Bool
  passes e =
      accepted
        (lib.generation_changed
          ∷ (in_namespace c.istio_root_namespace
              ∷ (has_labels (or_else c.envoy_filter_labels []) ∷ [])))
        e

  passes_iff : (e : Event) → (passes e ≡ true) ↔ Concerns e
  passes_iff e =
      let labels = or_else c.envoy_filter_labels [] in
      let names = eq_iff (subject e).namespace c.istio_root_namespace in
      let same = in_namespace-subject c.istio_root_namespace e in
      let checked = has_labels-check labels e in
      (
        λ h.
            let (g, h') = and-true (lib.generation_changed e) _ h in
            let (n, h'') = and-true (in_namespace c.istio_root_namespace e) _ h' in
            let (l, _) = and-true (has_labels labels e) _ h'' in
            (g, names.0 (sym same ∙ n), check_sound labels (subject e).labels (sym checked ∙ l)),
        λ (g, n, l).
            rw (g, same, names.1 n, checked, check_complete labels (subject e).labels l) refl,
      )

  woken-filter :
      (e : Event)
      → (woken (filter_watches lib c) envoy_filter e ≡ (if passes e then same_object ∷ [] else []))
        × (woken (leader_watches lib c) envoy_filter e
            ≡ (if passes e then filter_mapper ∷ [] else []))
  unfolding woken filter_watches leader_watches same_kind
  woken-filter e = (refl, refl)

  -- An event of an envoy filter wakes the controllers exactly if the runtime sees its specification
  -- changed and the filter, as it is after the event, is in Istio's namespace and has the configured
  -- labels: then the filter itself is reconciled, and the policies that the leader's mapper finds.
  pub woken_iff :
      (e : Event)
      → ((woken (filter_watches lib c) envoy_filter e ≡ same_object ∷ []) ↔ Concerns e)
        × ((woken (leader_watches lib c) envoy_filter e ≡ filter_mapper ∷ []) ↔ Concerns e)
  woken_iff e =
      let (own, mapped) = woken-filter e in
      let (there, back) = passes_iff e in
      let (hit, miss) = one_if (passes e) same_object in
      let (hit', miss') = one_if (passes e) filter_mapper in
      (
        (λ h. there (hit (sym own ∙ h)), λ k. own ∙ miss (back k)),
        (λ h. there (hit' (sym mapped ∙ h)), λ k. mapped ∙ miss' (back k)),
      )
