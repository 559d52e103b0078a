-- ===== src/Config/Pieces.antt =====
-- The defaults one by one: texts, durations, the prefix and the mode.
use Prim.Native.String.{◌++◌}
use text.Mathlib.TextLemmas.{cons-append, append-ne-nil_of_right_ne-nil}
use istio_oidc.Common.{
  String, true, false, Result, ok, ◌==◌, ◌≡◌, ◌≢◌, ◌⊎◌, refl, arith, inl, inr, Bool-cases, eq_iff,
  sym, subst,
}
use istio_oidc.Config.{
  ℤ, is_zero, or_default, or_interval, ends_in_dash, normalize_prefix, normalize_mode,
}

pub ok-inj : {A : Type 0} {x y : A} → ◌≡◌ {A = Result A} (ok x) (ok y) → x ≡ y
ok-inj h = cc

pub eq-false : (s t : String) → s ≢ t → (s == t) ≡ false
eq-false s t h = ground (arith, eq_iff s t, h)

snoc-ne : (s : String) → (s ++ "-") ≢ ""
snoc-ne s = append-ne-nil_of_right_ne-nil s (λ e. cc)

dash-snoc : (s : String) → ends_in_dash (s ++ "-") ≡ true
unfolding ends_in_dash
dash-snoc String.[] = refl
dash-snoc (String.◌∷◌ c s) =
    rw (cons-append c s "-", eq-false (s ++ "-") "" (snoc-ne s)) (dash-snoc s)

pub or_default_lem :
    (s d : String)
    → (d == "") ≡ false
    → ((or_default s d == "") ≡ false) × (or_default (or_default s d) d ≡ or_default s d)
or_default_lem s d h = ground arith

pub or_interval_lem :
    (t d : ℤ)
    → is_zero d ≡ false
    → (is_zero (or_interval t d) ≡ false) × (or_interval (or_interval t d) d ≡ or_interval t d)
or_interval_lem t d h = ground arith

pub normalize_prefix_lem :
    (s : String)
    → (ends_in_dash (normalize_prefix s) ≡ true)
      × ((normalize_prefix s == "") ≡ false)
      × (normalize_prefix (normalize_prefix s) ≡ normalize_prefix s)
unfolding normalize_prefix
normalize_prefix_lem s = elim (Bool-cases (s == "")) [
  | inl e ↦ rw e (refl, refl, refl)
  | inr e ↦ elim (Bool-cases (ends_in_dash s)) [
    | inl d ↦ rw (e, d) (d, e, rw (e, d) refl)
    | inr d ↦
        let snoc = eq-false (s ++ "-") "" (snoc-ne s) in
        rw (e, d) (dash-snoc s, snoc, rw (snoc, dash-snoc s) refl)
  ]
]

-- The mode is one of those that the lookup knows.
abbrev pub IsMode : String → Type 0
IsMode m = (m ≡ "none") ⊎ (m ≡ "static") ⊎ (m ≡ "dns")

pub mode_fixed : (m : String) → IsMode m → normalize_mode m ≡ ok m
unfolding normalize_mode
mode_fixed m (inl e) = subst (λ x. normalize_mode x ≡ ok x) (sym e) refl
mode_fixed m (inr (inl e)) = subst (λ x. normalize_mode x ≡ ok x) (sym e) refl
mode_fixed m (inr (inr e)) = subst (λ x. normalize_mode x ≡ ok x) (sym e) refl

pub normalize_mode-IsMode : (m m' : String) → normalize_mode m ≡ ok m' → IsMode m'
unfolding normalize_mode
normalize_mode-IsMode m m' h = elim (Bool-cases (m == "")) [
  | inl e ↦ inl (ground arith)
  | inr e ↦ elim (Bool-cases (m == "none")) [
    | inl f ↦ inl (ground (arith, eq_iff m "none"))
    | inr f ↦ elim (Bool-cases (m == "static")) [
      | inl g ↦ inr (inl (ground (arith, eq_iff m "static")))
      | inr g ↦ inr (inr (ground (arith, eq_iff m "dns")))
    ]
  ]
]
