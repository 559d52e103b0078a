-- ===== src/Session/Cleaning.antt =====
-- `clean` of the session store: what a round deletes, and what it leaves behind.
use istio_oidc.Common.{
  ℕ, zero, suc, ◌-◌, ◌≤◌, String, ◌≡◌, refl, sym, ap, ◌≢◌, inl, inr, some, List, [], ◌∷◌, arith,
  Elem, Bool-cases, if◌then◌else◌, ◌==◌, eq_iff, true, false, or_else, subst, ◌∙◌,
}
use istio_oidc.Common.Map
use istio_oidc.Common.Map.{GoMap, Distinct, Lacks, get-remove}
use istio_oidc.Session.{
  Session, Stamped, SessionStore, get, list_of, is_expired, sweep, sweep_lists, clean,
}
use istio_oidc.Session.Invariant.{After, Ordered, IsWellFormed}

-- How many sessions of a list have run out.
pub expired_count : ℕ → List Stamped → ℕ
expired_count min [] = 0
expired_count min (v ∷ l) = let n = expired_count min l in if is_expired min v then suc n else n

-- The list that `clean` leaves of a list.
abbrev pub swept : ℕ → List Stamped → List Stamped
swept min l = (sweep min l []).0

-- The loop over a list does not read the look-up map.
swept_lem :
    (min : ℕ) (l : List Stamped) (f g : GoMap Session) → (sweep min l f).0 ≡ (sweep min l g).0
unfolding sweep
swept_lem min [] f g = refl
swept_lem min (v ∷ l) f g = ground (arith, swept_lem min l f g)

list_of-sweep_lists :
    (min : ℕ) (m : GoMap (List Stamped)) (f : GoMap Session) (k : String)
    → or_else (Map.get k (sweep_lists min m f).0) [] ≡ swept min (or_else (Map.get k m) [])
unfolding sweep_lists Map.get sweep
list_of-sweep_lists min [] f k = refl
list_of-sweep_lists min ((j, l) ∷ m) f k =
    ground (arith, swept_lem min l f [], list_of-sweep_lists min m (sweep min l f).1 k)

pub list_of-clean :
    (s : SessionStore) (min : ℕ) (k : String) → list_of (clean s min) k ≡ swept min (list_of s k)
unfolding clean list_of
list_of-clean s min k = list_of-sweep_lists min s.store s.found k

swept-count :
    (min : ℕ) (l : List Stamped) → expired_count min (swept min l) ≡ expired_count min l - 1
unfolding sweep expired_count
swept-count min [] = refl
swept-count min (v ∷ l) = ground (arith, swept-count min l)

-- `n` rounds of `clean` with the same limit.
pub clean_rounds : ℕ → SessionStore → ℕ → SessionStore
clean_rounds zero s min = s
clean_rounds (suc n) s min = clean_rounds n (clean s min) min

-- A round of cleaning takes at most one expired session from each list, as the loop over a list ends
-- with its first deletion: after `n` rounds a list still has all but `n` of its expired sessions.
pub clean_rounds-expired_count :
    (n : ℕ) (s : SessionStore) (min : ℕ) (k : String)
    → expired_count min (list_of (clean_rounds n s min) k) ≡ expired_count min (list_of s k) - n
unfolding clean_rounds
clean_rounds-expired_count zero s min k = omega arith
clean_rounds-expired_count (suc n) s min k = omega (
  arith,
  clean_rounds-expired_count n (clean s min) min k,
  ap (expired_count min) (list_of-clean s min k),
  swept-count min (list_of s k),
)

get-sweep :
    (min : ℕ) (l : List Stamped) (f : GoMap Session) (id : String) (sess : Session)
    → Map.get id (sweep min l f).1 ≡ some sess
    → Map.get id f ≡ some sess
unfolding sweep
get-sweep min [] f id sess e = e
get-sweep min (v ∷ l) f id sess e = ground (arith, get-remove v.id id f, get-sweep min l f id sess)

get-sweep_lists :
    (min : ℕ) (m : GoMap (List Stamped)) (f : GoMap Session) (id : String) (sess : Session)
    → Map.get id (sweep_lists min m f).1 ≡ some sess
    → Map.get id f ≡ some sess
unfolding sweep_lists
get-sweep_lists min [] f id sess e = e
get-sweep_lists min ((k, l) ∷ m) f id sess e =
    get-sweep min l f id sess (get-sweep_lists min m (sweep min l f).1 id sess e)

-- The two ways in which the loop treats an element.
sweep-expired :
    (min : ℕ) (w : Stamped) (l : List Stamped) (f : GoMap Session)
    → is_expired min w ≡ true
    → sweep min (w ∷ l) f ≡ (l, Map.remove w.id f)
unfolding sweep
sweep-expired min w l f e = rw e

sweep-fresh :
    (min : ℕ) (w : Stamped) (l : List Stamped) (f : GoMap Session)
    → is_expired min w ≡ false
    → sweep min (w ∷ l) f ≡ (w ∷ (sweep min l f).0, (sweep min l f).1)
unfolding sweep
sweep-fresh min w l f e = rw e

removed_lem :
    (id : String) (f : GoMap Session) (sess : Session) → Map.get id (Map.remove id f) ≢ some sess
removed_lem id f sess e = ground (arith, get-remove id id f, eq_iff id id)

-- A look-up that survives a sweep has its session still in the list.
Elem-sweep :
    (min : ℕ) (l : List Stamped) (f : GoMap Session) (v : Stamped) (sess : Session)
    → Elem v l
    → Map.get v.id (sweep min l f).1 ≡ some sess
    → Elem v (sweep min l f).0
Elem-sweep min [] f v sess m e = absurd m
Elem-sweep min (w ∷ l) f v sess (inl same) e = elim (Bool-cases (is_expired min w)) [
  | inl out ↦ absurd (
      removed_lem w.id f sess (
        ap (λ (x : Stamped). Map.get x.id (Map.remove w.id f)) (sym same)
        ∙ (rw (sweep-expired min w l f out) at e)))
  | inr fresh ↦ rw (sweep-fresh min w l f fresh) (inl same)
]
Elem-sweep min (w ∷ l) f v sess (inr m) e = elim (Bool-cases (is_expired min w)) [
  | inl out ↦ rw (sweep-expired min w l f out) m
  | inr fresh ↦
      rw (sweep-fresh min w l f fresh)
        (inr (Elem-sweep min l f v sess m (rw (sweep-fresh min w l f fresh) at e)))
]

Elem-sweep_lists :
    (min : ℕ) (k : String) (m : GoMap (List Stamped)) (f : GoMap Session) (v : Stamped)
    (sess : Session)
    → Elem v (or_else (Map.get k m) [])
    → Map.get v.id (sweep_lists min m f).1 ≡ some sess
    → Elem v (or_else (Map.get k (sweep_lists min m f).0) [])
unfolding sweep_lists Map.get
Elem-sweep_lists min k [] f v sess h e = absurd h
Elem-sweep_lists min k ((j, l) ∷ m) f v sess h e = elim (Bool-cases (j == k)) [
  | inl same ↦ rw same (
      Elem-sweep min l f v sess (rw same at h)
        (get-sweep_lists min m (sweep min l f).1 v.id sess e))
  | inr other ↦ rw other (Elem-sweep_lists min k m (sweep min l f).1 v sess (rw other at h) e)
]

After-swept : (n min : ℕ) (l : List Stamped) → After n l → After n (swept min l)
unfolding sweep
After-swept n min [] a = tt
After-swept n min (v ∷ l) a = ground (arith, After-swept n min l a.1)

Ordered-swept :
    (peer : String) (min : ℕ) (l : List Stamped) → Ordered peer l → Ordered peer (swept min l)
unfolding sweep
Ordered-swept peer min [] o = tt
Ordered-swept peer min (v ∷ l) o =
    ground (arith, Ordered-swept peer min l o.2, After-swept v.serial min l o.1)

Lacks-sweep_lists :
    (min : ℕ) (k : String) (m : GoMap (List Stamped)) (f : GoMap Session)
    → Lacks k m
    → Lacks k (sweep_lists min m f).0
unfolding sweep_lists
Lacks-sweep_lists min k [] f h = tt
Lacks-sweep_lists min k ((j, l) ∷ m) f h = (h.0, Lacks-sweep_lists min k m (sweep min l f).1 h.1)

Distinct-sweep_lists :
    (min : ℕ) (m : GoMap (List Stamped)) (f : GoMap Session)
    → Distinct m
    → Distinct (sweep_lists min m f).0
unfolding sweep_lists
Distinct-sweep_lists min [] f d = tt
Distinct-sweep_lists min ((k, l) ∷ m) f d = (
  Lacks-sweep_lists min k m (sweep min l f).1 d.0,
  Distinct-sweep_lists min m (sweep min l f).1 d.1,
)

-- A round of cleaning keeps the store well formed: it deletes a session from its list and from the
-- look-up together.
pub clean-IsWellFormed : (s : SessionStore) (min : ℕ) → IsWellFormed s → IsWellFormed (clean s min)
unfolding clean get list_of
clean-IsWellFormed s min h = record {
  distinct = Distinct-sweep_lists min s.store s.found h.distinct;
  ordered = λ k. rw (list_of-clean s min k) (Ordered-swept k min (list_of s k) (h.ordered k));
  backed = λ id sess e.
      let (v, q, i, m) = h.backed id sess (get-sweep_lists min s.store s.found id sess e) in
      (
        v,
        q,
        i,
        Elem-sweep_lists min v.peer_id s.store s.found v sess m
            (subst (λ j. Map.get j (sweep_lists min s.store s.found).1 ≡ some sess) (sym i) e),
      );
}

Elem-swept :
    (min : ℕ) (l : List Stamped) (v : Stamped)
    → Elem v l
    → min ≤ v.expiry
    → Elem v (sweep min l []).0
Elem-swept min [] v m h = absurd m
Elem-swept min (w ∷ l) v (inl same) h =
    rw
      (sweep-fresh min w l []
        (unfold is_expired in ground (arith, ap (λ (x : Stamped). x.expiry) same)))
      (inl same)
Elem-swept min (w ∷ l) v (inr m) h = elim (Bool-cases (is_expired min w)) [
  | inl out ↦ rw (sweep-expired min w l [] out) m
  | inr fresh ↦ rw (sweep-fresh min w l [] fresh) (inr (Elem-swept min l v m h))
]

-- A session that has not run out stays in its list.
pub clean_keeps :
    (s : SessionStore) (min : ℕ) (k : String) (v : Stamped)
    → Elem v (list_of s k)
    → min ≤ v.expiry
    → Elem v (list_of (clean s min) k)
clean_keeps s min k v m h = rw (list_of-clean s min k) (Elem-swept min (list_of s k) v m h)
