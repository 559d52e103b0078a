-- ===== src/Session/Walking/Sending.antt =====
-- What the goroutine of `Stream` has sent at its end, and that it gets there.
use istio_oidc.Common.{
  ℕ, zero, suc, String, List, [], ◌∷◌, ◌++◌, Option, none, some, ◌≡◌, refl, sym, ap, ◌∙◌, subst,
  inl, inr, Elem, get_elem?, append-nil, Bool-cases, ◌==◌, eq_iff,
}
use istio_oidc.Common.Map.{GoMap}
use istio_oidc.Session.{Stamped, SessionStore, list_of, since}
use istio_oidc.Session.Invariant.{IsWellFormed}
use istio_oidc.Session.Streaming.{of_peer, wanted}
use istio_oidc.Session.Histories.{Call, perform, perform-IsWellFormed}
use istio_oidc.Session.Walking.{
  Walk, copied, start_walk, walk_at, walk_on, walk_for, go, call, Reach, here, next,
}
use istio_oidc.Session.Walking.Names.{Once, Distinct-Once, first_is, none_is}
use istio_oidc.Session.Walking.Places.{
  IsAt, IsWalking, rest_first, named_at, visit-IsAt, visit_other-IsAt, leave-IsAt, leave_other-IsAt,
  call-IsWalking,
}
use istio_oidc.Session.Walking.Ending.{on_end, on_at, Ends, list-Ends, fresh-Ends}

module _ (from : GoMap ℕ) (start : SessionStore) (peers : List String) where
  visit-IsWalking :
      (w : Walk) (k : String) (ks : List String) (v : Stamped)
      → IsWalking from start peers w
      → w.todo ≡ k ∷ ks
      → get_elem? (list_of w.store k) w.position ≡ some v
      → IsWalking from start peers (walk_at from w k ks (some v))
  visit-IsWalking w k ks v h q e =
      let a = h.places k in
      let (rest, f) = first_is a.rest v (rest_first from start peers w k ks (some v) a q e) in
      record {
        store = unfold walk_at in h.store;
        once = unfold walk_at in h.once;
        grown = unfold walk_at in h.grown;
        places = λ j. elim (Bool-cases (k == j)) [
          | inl same ↦
              subst (λ i. IsAt from start peers (walk_at from w k ks (some v)) i)
                ((eq_iff k j).0 same) (visit-IsAt from start peers w k ks v rest a h q f)
          | inr other ↦
              visit_other-IsAt from start peers w k j ks v
                (named_at from start peers w k v rest a h f) other q (h.places j)
        ];
      }

  leave-IsWalking :
      (w : Walk) (k : String) (ks : List String)
      → IsWalking from start peers w
      → w.todo ≡ k ∷ ks
      → get_elem? (list_of w.store k) w.position ≡ none
      → IsWalking from start peers (walk_at from w k ks none)
  leave-IsWalking w k ks h q e =
      let a = h.places k in
      let once : Once (k ∷ ks) = subst Once q h.once in
      record {
        store = unfold walk_at in h.store;
        once = unfold walk_at in once.1;
        grown = unfold walk_at in h.grown;
        places = λ j. elim (Bool-cases (k == j)) [
          | inl same ↦
              subst (λ i. IsAt from start peers (walk_at from w k ks none) i) ((eq_iff k j).0 same)
                (leave-IsAt from start peers w k ks a h q
                  (none_is a.rest (rest_first from start peers w k ks none a q e)))
          | inr other ↦ leave_other-IsAt from start peers w k j ks other q (h.places j)
        ];
      }

  go-IsWalking :
      (w : Walk) → IsWalking from start peers w → IsWalking from start peers (walk_on from w)
  go-IsWalking w h = by_todo (w.todo) refl
    where
      by_element :
          (k : String) (ks : List String) (o : Option Stamped)
          → w.todo ≡ k ∷ ks
          → get_elem? (list_of w.store k) w.position ≡ o
          → IsWalking from start peers (walk_on from w)
      by_element k ks none q e =
          subst (IsWalking from start peers) (sym (on_at from w k ks none q e))
            (leave-IsWalking w k ks h q e)
      by_element k ks (some v) q e =
          subst (IsWalking from start peers) (sym (on_at from w k ks (some v) q e))
            (visit-IsWalking w k ks v h q e)

      by_todo : (todo : List String) → w.todo ≡ todo → IsWalking from start peers (walk_on from w)
      by_todo [] q = subst (IsWalking from start peers) (sym (on_end from w q)) h
      by_todo (k ∷ ks) q = by_element k ks (get_elem? (list_of w.store k) w.position) q refl

  Reach-IsWalking :
      {w u : Walk} → Reach from w u → IsWalking from start peers w → IsWalking from start peers u
  Reach-IsWalking here h = h
  Reach-IsWalking (next {t} r go) h = go-IsWalking t (Reach-IsWalking r h)
  Reach-IsWalking (next {t} r (call v)) h =
      call-IsWalking from start peers t v (Reach-IsWalking r h)

  walk_for-Reach : (n : ℕ) (w u : Walk) → Reach from w u → Reach from w (walk_for n from u)
  unfolding walk_for
  walk_for-Reach zero w u r = r
  walk_for-Reach (suc n) w u r = walk_for-Reach n w (walk_on from u) (next r go)

  IsWalking-Ends :
      (w : Walk) (todo : List String) → w.todo ≡ todo → IsWalking from start peers w → Ends from w
  unfolding walk_for
  IsWalking-Ends w [] q h = (zero, q)
  IsWalking-Ends w (k ∷ ks) q h =
      let a = h.places k in
      list-Ends from a.rest a.done w k ks q a.split (a.now ks q) (fresh-Ends from ks)

start-IsWalking :
    (from : GoMap ℕ) (s : SessionStore) (peers : List String)
    → IsWellFormed s
    → Once peers
    → IsWalking from s peers (start_walk peers s)
unfolding start_walk
start-IsWalking from s peers h once = record {
  store = h;
  once = once;
  grown = λ k. ([], sym (append-nil (list_of s k)));
  places = λ k. record {
    done = [];
    rest = list_of s k;
    split = refl;
    told = unfold since in refl;
    now = λ ks q. refl;
    later = λ j ks q m. refl;
    over = λ p n. absurd (n p);
  };
}

-- `Stream` is called on a store, any calls of `Set` and rounds of cleaning change it before the
-- goroutine takes `delMu`, and any calls of `Set` come between the goroutine's steps. It comes to its
-- end. By then it has sent of each peer that had a list at the call the sessions with the serial that
-- was asked for or a later one, once and in their order, of a part of the peer's list that starts at
-- its front and has all the sessions that stood in it when the goroutine took `delMu`.
pub walk_sends :
    (from : GoMap ℕ) (s : SessionStore) (calls : List Call) (w : Walk) (k : String)
    → IsWellFormed s
    → Elem k (copied s)
    → Reach from (start_walk (copied s) (perform calls s)) w
    → (n : ℕ) × ((walk_for n from w).todo ≡ [])
      × (more : List Stamped) × (rest : List Stamped) × (list_of (walk_for n from w).store k
          ≡ (list_of (perform calls s) k ++ more) ++ rest)
      × (of_peer k (walk_for n from w).sent
          ≡ since (wanted from k) (list_of (perform calls s) k ++ more))
walk_sends from s calls w k h m r =
    let s' = perform calls s in
    let peers = copied s in
    let start =
      start-IsWalking from s' peers (perform-IsWellFormed calls s h)
        (Distinct-Once s.store h.distinct) in
    let (n, ended) =
      IsWalking-Ends from s' peers w (w.todo) refl (Reach-IsWalking from s' peers r start) in
    let last =
      Reach-IsWalking from s' peers (walk_for-Reach from s' peers n (start_walk peers s') w r)
        start in
    let a = last.places k in
    let (more, e) = a.over m (λ i. subst (Elem k) ended i) in
    (
      n,
      ended,
      more,
      a.rest,
      a.split ∙ ap (λ l. l ++ a.rest) e,
      a.told ∙ ap (since (wanted from k)) e,
    )
