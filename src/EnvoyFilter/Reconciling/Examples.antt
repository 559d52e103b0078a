-- ===== src/EnvoyFilter/Reconciling/Examples.antt =====
-- Two filters with one selector, and the theorems about them.
use istio_oidc.Common.{
  ℕ, ◌≤◌, String, Bool, true, false, ◌&&◌, List, [], ◌∷◌, some, ◌≡◌, ◌↔◌, refl, arith, Elem, All,
  inl, inr, leb, if◌then◌else◌, ◌==◌, eq_iff, Bool-cases, leb→le, leb-false→lt, ap,
}
use istio_oidc.Common.Map.{GoMap}
use istio_oidc.Api.{ApiAccessPolicy}
use istio_oidc.Api.Examples.{plain_net, shop}
use istio_oidc.Worker.{found}
use istio_oidc.EnvoyFilter.Reconciling.{Filter, FilterCluster, reconcile_filter}
use istio_oidc.EnvoyFilter.Reconciling.Duplicates.{
  AreOrdered, IsOrderly, IsSurvivor, is_duplicate-IsSurvivor,
}
use istio_oidc.EnvoyFilter.Reconciling.Outcome.{Outcome, reconcile_filter-Outcome}

-- Sorting by insertion.
insert : Filter → List Filter → List Filter
insert f [] = f ∷ []
insert f (g ∷ fs) =
    let rest = insert f fs in if leb f.created g.created then f ∷ (g ∷ fs) else g ∷ rest

sort : List Filter → List Filter
unfolding insert
sort [] = []
sort (f ∷ fs) = insert f (sort fs)

All-insert :
    (P : Filter → Type 0) (f : Filter) (fs : List Filter) → P f → All P fs → All P (insert f fs)
unfolding insert
All-insert P f [] p h = (p, tt)
All-insert P f (g ∷ fs) p h = elim (Bool-cases (leb f.created g.created)) [
  | inl e ↦ rw e (p, (h.0, h.1))
  | inr e ↦ rw e (h.0, All-insert P f fs p h.1)
]

All-le :
    (n m : ℕ) (fs : List Filter) → n ≤ m → All (λ g. m ≤ g.created) fs → All (λ g. n ≤ g.created) fs
All-le n m [] h a = tt
All-le n m (g ∷ fs) h a = (omega (arith, a.0), All-le n m fs h a.1)

insert-AreOrdered : (f : Filter) (fs : List Filter) → AreOrdered fs → AreOrdered (insert f fs)
unfolding insert
insert-AreOrdered f [] h = (tt, tt)
insert-AreOrdered f (g ∷ fs) h = elim (Bool-cases (leb f.created g.created)) [
  | inl e ↦
      let le = leb→le f.created g.created e in
      rw e ((le, All-le f.created g.created fs le h.0), (h.0, h.1))
  | inr e ↦
      let lt = leb-false→lt f.created g.created e in
      rw e
        (All-insert (λ x. g.created ≤ x.created) f fs (omega arith) h.0, insert-AreOrdered f fs h.1)
]

sort-AreOrdered : (fs : List Filter) → AreOrdered (sort fs)
unfolding sort
sort-AreOrdered [] = tt
sort-AreOrdered (f ∷ fs) = insert-AreOrdered f (sort fs) (sort-AreOrdered fs)

Elem-insert : (f g : Filter) (fs : List Filter) → Elem g (insert f fs) ↔ Elem g (f ∷ fs)
unfolding insert
Elem-insert f g [] = (λ m. m, λ m. m)
Elem-insert f g (x ∷ fs) = elim (Bool-cases (leb f.created x.created)) [
  | inl e ↦ rw e (λ m. m, λ m. m)
  | inr e ↦
      let ih = Elem-insert f g fs in
      rw e (
        λ m. elim m [ inl q ↦ inr (inl q) | inr n ↦ behind (ih.0 n) ],
        λ m. elim m [
          | inl q ↦ inr (ih.1 (inl q))
          | inr (inl q) ↦ inl q
          | inr (inr n) ↦ inr (ih.1 (inr n))
        ],
      )
]
  where
    behind : Elem g (f ∷ fs) → Elem g (f ∷ (x ∷ fs))
    behind (inl q) = inl q
    behind (inr n) = inr (inr n)

Elem-sort : (fs : List Filter) (g : Filter) → Elem g (sort fs) ↔ Elem g fs
unfolding sort
Elem-sort [] g = (λ m. m, λ m. m)
Elem-sort (f ∷ fs) g =
    let (there, back) = Elem-insert f g (sort fs) in
    let (ih, hi) = Elem-sort fs g in
    (
      λ m. elim (there m) [ inl q ↦ inl q | inr n ↦ inr (ih n) ],
      λ m. back (elim m [ inl q ↦ inl q | inr n ↦ inr (hi n) ]),
    )

-- Equality of labels in one order.
same_labels : GoMap String → GoMap String → Bool
same_labels [] [] = true
same_labels [] (y ∷ ys) = false
same_labels (x ∷ xs) [] = false
same_labels ((k, v) ∷ xs) ((j, w) ∷ ys) =
    let rest = same_labels xs ys in if (k == j) && (v == w) then rest else false

same_labels_refl : (a : GoMap String) → same_labels a a ≡ true
unfolding same_labels
same_labels_refl [] = refl
same_labels_refl ((k, v) ∷ a) = ground (arith, eq_iff k k, eq_iff v v, same_labels_refl a)

same_labels-eq : (a b : GoMap String) → same_labels a b ≡ true → a ≡ b
unfolding same_labels
same_labels-eq [] [] h = refl
same_labels-eq [] (y ∷ ys) h = absurd (cc)
same_labels-eq (x ∷ xs) [] h = absurd (cc)
same_labels-eq ((k, v) ∷ xs) ((j, w) ∷ ys) h =
    ground (arith, eq_iff k j, eq_iff v w, same_labels-eq xs ys)

abbrev old_filter : Filter
old_filter = record {
  namespace = "istio-system";
  name = "ext-authz-a";
  created = 3;
  labels = ("istio", "ingress") ∷ [];
}

abbrev new_filter : Filter
new_filter = record old_filter { name = "ext-authz-b"; created = 5 }

abbrev served_shop : ApiAccessPolicy
served_shop = record shop {
  status = record { selector = ("istio", "ingress") ∷ []; virtual_hosts = "shop.example:443" ∷ [] };
}

abbrev cluster : FilterCluster
cluster = record {
  net = plain_net;
  settings = record { cluster_name = "auth"; timeout = "1s"; address = λ svc port. svc };
  get_filter = λ namespace name. found old_filter;
  filters = some (new_filter ∷ (old_filter ∷ []));
  policies = some (served_shop ∷ []);
  accepts = λ w. true;
  sort = sort;
  same_labels = same_labels;
}

cluster-IsOrderly : IsOrderly cluster
cluster-IsOrderly = record {
  sorted = sort-AreOrdered;
  kept = Elem-sort;
  same_refl = same_labels_refl;
  same_trans = λ a b c h. ap (same_labels c) (same_labels-eq a b h);
}

is_duplicate-IsSurvivor_example :
    (first : Filter) × IsSurvivor cluster (new_filter ∷ (old_filter ∷ [])) new_filter first
is_duplicate-IsSurvivor_example =
    is_duplicate-IsSurvivor cluster cluster-IsOrderly (new_filter ∷ (old_filter ∷ [])) new_filter
      refl (inl refl)

reconcile_filter-Outcome_example :
    Outcome cluster old_filter
      (served_shop ∷ [])
      (reconcile_filter cluster "istio-system" "ext-authz-a")
reconcile_filter-Outcome_example =
    reconcile_filter-Outcome cluster "istio-system" "ext-authz-a" old_filter
      (new_filter ∷ (old_filter ∷ [])) (served_shop ∷ []) cluster-IsOrderly refl refl refl
      (inr (inl refl)) (λ w. refl)
