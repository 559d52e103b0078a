-- ===== src/EnvoyFilter/Reconciling/Duplicates.antt =====
-- Which of the envoy filters with one selector stays.
use mathlib.Core.Path.{fun_ext}
use istio_oidc.Common.{
  ◌≤◌, String, true, false, not, List, [], ◌∷◌, some, ok, ◌≡◌, ◌↔◌, refl, arith, Elem, All,
  Elem-All, select, select-Elem, Elem-select, inl, inr, sym, ap, ◌∙◌, ◌==◌, eq_refl, subst,
}
use istio_oidc.Common.Map.{GoMap}
use istio_oidc.EnvoyFilter.Reconciling.{Filter, FilterCluster, is_not_first, alike, is_duplicate}

-- Filters in the order of their creation.
abbrev pub AreOrdered : List Filter → Type 0
AreOrdered [] = Unit
AreOrdered (f ∷ fs) = All (λ g. f.created ≤ g.created) fs × AreOrdered fs

-- What is documented of `sort.Slice` and `reflect.DeepEqual`: the slice is put in order, where equal
-- times may come in any order, and equality of maps is an equivalence.
pub record IsOrderly (k : FilterCluster) : Type 0 where
  pub sorted : (fs : List Filter) → AreOrdered (k.sort fs)
  pub kept : (fs : List Filter) (f : Filter) → Elem f (k.sort fs) ↔ Elem f fs
  pub same_refl : (a : GoMap String) → k.same_labels a a ≡ true
  pub same_trans :
      (a b c : GoMap String) → k.same_labels a b ≡ true → k.same_labels c a ≡ k.same_labels c b

-- The filter `first` is the oldest of those with the selector of `ef`, and the one that stays.
pub record IsSurvivor (k : FilterCluster) (fs : List Filter) (ef first : Filter) : Type 0 where
  pub listed : Elem first fs
  pub same : k.same_labels first.labels ef.labels ≡ true
  pub oldest :
      (g : Filter) → Elem g fs → k.same_labels g.labels ef.labels ≡ true → first.created ≤ g.created
  pub stays : is_duplicate k first ≡ ok false
  pub others :
      (g : Filter)
      → k.same_labels g.labels ef.labels ≡ true
      → is_duplicate k g ≡ ok (not (g.name == first.name))

module _ (k : FilterCluster) (h : IsOrderly k) where
  alike-same :
      (g ef : Filter) (fs : List Filter)
      → k.same_labels g.labels ef.labels ≡ true
      → alike k g fs ≡ alike k ef fs
  unfolding alike
  alike-same g ef fs e =
      ap (λ p. k.sort (select p fs))
        (fun_ext (λ (f : Filter). h.same_trans g.labels ef.labels f.labels e))

  Elem-alike :
      (ef f : Filter) (fs : List Filter)
      → Elem f (alike k ef fs) ↔ (Elem f fs × (k.same_labels f.labels ef.labels ≡ true))
  unfolding alike
  Elem-alike ef f fs =
      let p = λ (g : Filter). k.same_labels g.labels ef.labels in
      (
        λ m. select-Elem p f fs ((h.kept (select p fs) f).0 m),
        λ m. (h.kept (select p fs) f).1 (Elem-select p f fs m.0 m.1),
      )

  duplicate_by :
      (g ef first : Filter) (fs rest : List Filter)
      → k.filters ≡ some fs
      → alike k ef fs ≡ first ∷ rest
      → k.same_labels g.labels ef.labels ≡ true
      → is_duplicate k g ≡ ok (not (g.name == first.name))
  unfolding is_duplicate is_not_first
  duplicate_by g ef first fs rest e a same = rw (e, alike-same g ef fs same, a) refl

  oldest_of :
      (l : List Filter) (first : Filter) (rest : List Filter) (g : Filter)
      → l ≡ first ∷ rest
      → AreOrdered l
      → Elem g l
      → first.created ≤ g.created
  oldest_of l first rest g e o m = elim (subst (Elem g) e m) [
    | inl q ↦ subst (λ (x : Filter). first.created ≤ x.created) (sym q) (omega arith)
    | inr n ↦ Elem-All (λ x. first.created ≤ x.created) g rest (subst AreOrdered e o).0 n
  ]

  survivor :
      (fs : List Filter) (ef first : Filter) (rest : List Filter)
      → k.filters ≡ some fs
      → alike k ef fs ≡ first ∷ rest
      → IsSurvivor k fs ef first
  survivor fs ef first rest e a =
      let (m, same) = (Elem-alike ef first fs).0 (subst (Elem first) (sym a) (inl refl)) in
      record {
        listed = m;
        same = same;
        oldest = λ g n s.
            oldest_of (alike k ef fs) first rest g a
              (unfold alike in h.sorted (select (λ f. k.same_labels f.labels ef.labels) fs))
              ((Elem-alike ef g fs).1 (n, s));
        stays =
            duplicate_by first ef first fs rest e a same
            ∙ ap (λ b. ok (not b)) (eq_refl first.name);
        others = λ g s. duplicate_by g ef first fs rest e a s;
      }

  some-IsSurvivor :
      (fs : List Filter) (ef : Filter) (l : List Filter)
      → k.filters ≡ some fs
      → alike k ef fs ≡ l
      → Elem ef l
      → (first : Filter) × IsSurvivor k fs ef first
  some-IsSurvivor fs ef [] e a m = absurd m
  some-IsSurvivor fs ef (first ∷ rest) e a m = (first, survivor fs ef first rest e a)

  -- Of the listed filters with one selector exactly one name stays: that of a filter that was created
  -- first of them. It is no duplicate, and any filter with the selector is one unless it has this
  -- name.
  pub is_duplicate-IsSurvivor :
      (fs : List Filter) (ef : Filter)
      → k.filters ≡ some fs
      → Elem ef fs
      → (first : Filter) × IsSurvivor k fs ef first
  is_duplicate-IsSurvivor fs ef e m =
      some-IsSurvivor fs ef (alike k ef fs) e refl
        ((Elem-alike ef ef fs).1 (m, h.same_refl ef.labels))
