-- ===== src/Session/Walking/Names.antt =====
-- The names of the peers whose lists a stream walks.
use istio_oidc.Common.{
  String, List, [], ◌∷◌, none, some, ◌≡◌, refl, arith, map, inl, inr, Elem, get_elem?, eq_iff,
}
use istio_oidc.Common.Map.{GoMap, Lacks, Distinct}
use istio_oidc.Session.{Stamped}

-- Each name stands once.
abbrev pub Once : List String → Type 0
Once [] = Unit
Once (k ∷ ks) = ¬ Elem k ks × Once ks

Lacks-Elem : {V : Type 0} (k : String) (m : GoMap V) → Lacks k m → ¬ Elem k (map (λ e. e.0) m)
Lacks-Elem k [] l e = e
Lacks-Elem k ((j, v) ∷ m) l (inl e) = ground (arith, l.0, eq_iff j k, e)
Lacks-Elem k ((j, v) ∷ m) l (inr e) = Lacks-Elem k m l.1 e

pub Distinct-Once : {V : Type 0} (m : GoMap V) → Distinct m → Once (map (λ e. e.0) m)
Distinct-Once [] d = tt
Distinct-Once ((k, v) ∷ m) d = (Lacks-Elem k m d.0, Distinct-Once m d.1)

abbrev pub tail : List String → List String
tail [] = []
tail (k ∷ ks) = ks

abbrev pub first : String → List String → String
first d [] = d
first d (k ∷ ks) = k

pub first_is :
    (l : List Stamped) (v : Stamped)
    → get_elem? l 0 ≡ some v
    → (rest : List Stamped) × (l ≡ v ∷ rest)
first_is [] v e = absurd (cc)
first_is (x ∷ l) v e = (l, cc)

pub none_is : (l : List Stamped) → get_elem? l 0 ≡ none → l ≡ []
none_is [] e = refl
none_is (x ∷ l) e = absurd (cc)
