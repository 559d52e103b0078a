-- ===== src/Session/Streaming.antt =====
-- `Stream` of the session store: what a reader is sent.
use istio_oidc.Common.{
  ℕ, String, ◌≡◌, refl, ap, ◌∙◌, List, [], ◌∷◌, ◌++◌, arith, select, Elem, All, Bool-cases, inl,
  inr, if◌then◌else◌, ◌==◌, eq_iff, false, or_else, none, Bool, append-nil, subst,
}
use istio_oidc.Common.Map
use istio_oidc.Common.Map.{GoMap, Distinct, get-Lacks, get-Elem}
use istio_oidc.Session.{Stamped, SessionStore, list_of, since, stream_lists, stream}
use istio_oidc.Session.Invariant.{Ordered, IsWellFormed}

-- The sessions of one peer, in their order.
abbrev pub of_peer : String → List Stamped → List Stamped
of_peer k l = select (λ v. v.peer_id == k) l

-- The serial that a reader asks a peer's sessions from.
abbrev pub wanted : GoMap ℕ → String → ℕ
wanted from k = or_else (Map.get k from) 0

-- All sessions of the list are of one peer.
abbrev pub IsNamed : String → List Stamped → Type 0
IsNamed k = All (λ v. v.peer_id ≡ k)

abbrev pub AreNamed : GoMap (List Stamped) → Type 0
AreNamed = All (λ e. IsNamed e.0 e.1)

pub select-append :
    {A : Type 0} (p : A → Bool) (xs ys : List A) → select p (xs ++ ys) ≡ select p xs ++ select p ys
select-append p [] ys = refl
select-append p (x ∷ xs) ys = ground (arith, select-append p xs ys)

pub Ordered-IsNamed : (k : String) (l : List Stamped) → Ordered k l → IsNamed k l
Ordered-IsNamed k [] o = tt
Ordered-IsNamed k (v ∷ l) o = (o.0, Ordered-IsNamed k l o.2)

pub since-IsNamed : (n : ℕ) (k : String) (l : List Stamped) → IsNamed k l → IsNamed k (since n l)
unfolding since
since-IsNamed n k [] h = tt
since-IsNamed n k (v ∷ l) h = ground (arith, since-IsNamed n k l h.1)

pub of_peer_all : (k : String) (l : List Stamped) → IsNamed k l → of_peer k l ≡ l
of_peer_all k [] h = refl
of_peer_all k (v ∷ l) h = ground (arith, of_peer_all k l h.1, eq_iff v.peer_id k)

pub of_peer_none :
    (j k : String) (l : List Stamped) → (j == k) ≡ false → IsNamed j l → of_peer k l ≡ []
of_peer_none j k [] ne h = refl
of_peer_none j k (v ∷ l) ne h = ground (arith, of_peer_none j k l ne h.1, ap (λ i. i == k) h.0)

-- The part of a stream that comes from one list.
first_part :
    (from : GoMap ℕ) (j k : String) (l : List Stamped)
    → IsNamed j l
    → of_peer k (since (wanted from j) l) ≡ (if j == k then since (wanted from k) l else [])
first_part from j k l h = elim (Bool-cases (j == k)) [
  | inl same ↦ rw same (
      subst (λ i. of_peer i (since (wanted from j) l) ≡ since (wanted from i) l)
        ((eq_iff j k).0 same) (of_peer_all j _ (since-IsNamed (wanted from j) j l h)))
  | inr other ↦ rw other (of_peer_none j k _ other (since-IsNamed (wanted from j) j l h))
]

of_peer-stream_lists :
    (from : GoMap ℕ) (m : GoMap (List Stamped)) (k : String)
    → Distinct m
    → AreNamed m
    → of_peer k (stream_lists from m) ≡ since (wanted from k) (or_else (Map.get k m) [])
unfolding stream_lists Map.get
of_peer-stream_lists from [] k d h = unfold since in refl
of_peer-stream_lists from ((j, l) ∷ m) k d h =
    select-append (λ v. v.peer_id == k) (since (wanted from j) l) (stream_lists from m)
    ∙ rw (first_part from j k l h.0, of_peer-stream_lists from m k d.1 h.1)
        (elim (Bool-cases (j == k)) [
          | inl same ↦
              rw (same, subst (λ i. Map.get i m ≡ none) ((eq_iff j k).0 same) (get-Lacks j m d.0))
                (unfold since in append-nil _)
          | inr other ↦ rw other
        ])

AreNamed-entries :
    (m : GoMap (List Stamped))
    → ((k : String) (l : List Stamped) → Elem (k, l) m → IsNamed k l)
    → AreNamed m
AreNamed-entries [] f = tt
AreNamed-entries ((k, l) ∷ m) f = (f k l (inl refl), AreNamed-entries m (λ j i e. f j i (inr e)))

IsWellFormed-AreNamed : (s : SessionStore) → IsWellFormed s → AreNamed s.store
unfolding list_of
IsWellFormed-AreNamed s h = AreNamed-entries s.store λ k l e.
    Ordered-IsNamed k l
      (subst (λ o. Ordered k (or_else o [])) (get-Elem k l s.store h.distinct e) (h.ordered k))

-- In whatever order the store's map is ranged over, a reader is sent of each peer exactly the
-- sessions with the serial that it asked for or a later one, once and in the order of their serials.
pub of_peer-stream :
    (s : SessionStore) (from : GoMap ℕ) (k : String)
    → IsWellFormed s
    → of_peer k (stream s from) ≡ since (wanted from k) (list_of s k)
unfolding stream list_of
of_peer-stream s from k h =
    of_peer-stream_lists from s.store k h.distinct (IsWellFormed-AreNamed s h)
