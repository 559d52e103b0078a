-- ===== src/Api/Provider.antt =====
-- References to providers, `name` or `namespace/name`: the patterns `^([a-z-]+/)?[a-z-.]+$` of
-- api/accesspolicy.go and `^(?:([a-z-]+)/)?([a-z-.]+)$` of controller/accesspolicy/worker.go.
use Prim.Native.Char.{Char, char, code}
use Prim.Native.String.{String, [], ◌∷◌, ◌++◌}
use text.Mathlib.TextLemmas.{nil-append, cons-append}
use istio_oidc.Common.{
  ℕ, Bool, true, false, ◌&&◌, ◌||◌, Option, none, some, if◌then◌else◌, eqb, leb, ◌≡◌, refl, arith,
}

-- `[a-z-]`
unfoldable pub is_namespace_char : ℕ → Bool
is_namespace_char c = leb b'a' c && leb c b'z' || eqb c b'-'

-- `[a-z-.]`
unfoldable pub is_name_char : ℕ → Bool
unfolding is_namespace_char
is_name_char c = is_namespace_char c || eqb c b'.'

unfoldable pub all_chars : (ℕ → Bool) → String → Bool
all_chars p [] = true
all_chars p (c ∷ s) = p (code c) && all_chars p s

-- A class with `+` behind it.
unfoldable pub some_chars : (ℕ → Bool) → String → Bool
unfolding all_chars
some_chars p [] = false
some_chars p (c ∷ s) = all_chars p (c ∷ s)

-- The text before the first slash, and the text behind it.
unfoldable pub cut_slash : String → Option (String × String)
cut_slash [] = none
cut_slash (c ∷ s) =
    let rest = cut_slash s in
    if eqb (code c) b'/'
    then some ([], s)
    else elim rest [ none ↦ none | some (a, b) ↦ some (c ∷ a, b) ]

-- The two groups of a match, the first one empty if it takes no part. Neither class has a slash, so
-- there is no other way to match.
unfoldable pub match_provider : String → Option (String × String)
match_provider s = elim (cut_slash s) [
  | none ↦ if some_chars is_name_char s then some ([], s) else none
  | some (ns, name) ↦
      if some_chars is_namespace_char ns && some_chars is_name_char name
      then some (ns, name)
      else none
]

abbrev pub slash : Char
slash = char b'/' tt

namespace_no_slash : (c : ℕ) → is_namespace_char c ≡ true → eqb c b'/' ≡ false
unfolding is_namespace_char
namespace_no_slash c h = ground arith

name_no_slash : (c : ℕ) → is_name_char c ≡ true → eqb c b'/' ≡ false
unfolding is_name_char
name_no_slash c h = ground arith

cut_slash-all :
    (s t : String)
    → all_chars is_namespace_char s ≡ true
    → cut_slash (s ++ (slash ∷ t)) ≡ some (s, t)
unfolding cut_slash all_chars
cut_slash-all [] t h = rw (nil-append (slash ∷ t))
cut_slash-all (c ∷ s) t h =
    rw cons-append (ground (arith, cut_slash-all s t, namespace_no_slash (code c)))

cut_slash-none : (s : String) → all_chars is_name_char s ≡ true → cut_slash s ≡ none
unfolding cut_slash all_chars
cut_slash-none [] h = refl
cut_slash-none (c ∷ s) h = ground (arith, cut_slash-none s, name_no_slash (code c))

all_of_some : (p : ℕ → Bool) (s : String) → some_chars p s ≡ true → all_chars p s ≡ true
unfolding some_chars
all_of_some p [] h = ground arith
all_of_some p (c ∷ s) h = h

-- A reference to a provider in another namespace is taken apart at its slash, and one without a
-- slash has no namespace.
pub match_provider_lem :
    (ns name : String)
    → some_chars is_namespace_char ns ≡ true
    → some_chars is_name_char name ≡ true
    → (match_provider (ns ++ (slash ∷ name)) ≡ some (ns, name))
      × (match_provider name ≡ some ("", name))
unfolding match_provider
match_provider_lem ns name h k = (
  ground (arith, cut_slash-all ns name (all_of_some is_namespace_char ns h), h, k),
  ground (arith, cut_slash-none name (all_of_some is_name_char name k), k),
)
