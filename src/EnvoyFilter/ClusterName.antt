-- ===== src/EnvoyFilter/ClusterName.antt =====
-- `parseIstioClusterName` of controller/envoyfilter/envoyfilter.go: the pattern
-- `^.*?\|(\d+)\|(.*?)\|(.+?)$` on the cluster's name. A dot stands for any character but a line break.
use Prim.Native.Char.{code}
use Prim.Native.String.{String, [], ◌∷◌}
use istio_oidc.Common.{
  ℕ, ◌+◌, ◌-◌, ◌*◌, ◌^◌, Bool, false, ◌&&◌, ◌||◌, Option, none, some, if◌then◌else◌, eqb, leb, ltb,
}

unfoldable pub has_break : String → Bool
has_break [] = false
has_break (c ∷ s) = eqb (code c) b'\n' || has_break s

-- The text before the first bar, and the text behind it.
unfoldable pub cut_bar : String → Option (String × String)
cut_bar [] = none
cut_bar (c ∷ s) =
    let rest = cut_bar s in
    if eqb (code c) b'|'
    then some ([], s)
    else elim rest [ none ↦ none | some (a, b) ↦ some (c ∷ a, b) ]

-- `strconv.Atoi` of digits, its error ignored: a number that is too large is the largest `int`.
unfoldable pub number_of : ℕ → String → Option ℕ
number_of n [] = some (if ltb n (2 ^ 63) then n else 2 ^ 63 - 1)
number_of n (c ∷ s) =
    let rest = number_of (n * 10 + (code c - b'0')) s in
    if leb b'0' (code c) && leb (code c) b'9' then rest else none

-- One digit at least.
unfoldable pub digits : String → Option ℕ
unfolding number_of
digits [] = none
digits (c ∷ s) = number_of 0 (c ∷ s)

-- The subset and the service behind the port; the service is not empty.
unfoldable pub subset_and_service : ℕ → Option (String × String) → Option (String × ℕ × String)
subset_and_service port none = none
subset_and_service port (some (subset, [])) = none
subset_and_service port (some (subset, c ∷ s)) = some (c ∷ s, port, subset)

-- The pattern behind its first bar: the service, the port and the subset.
unfoldable pub match_tail : String → Option (String × ℕ × String)
unfolding cut_bar digits subset_and_service
match_tail s = elim (cut_bar s) [
  | none ↦ none
  | some p ↦ elim (digits p.0) [ none ↦ none | some port ↦ subset_and_service port (cut_bar p.1) ]
]

-- The first bar that the rest of the pattern matches behind.
unfoldable pub match_bars : String → Option (String × ℕ × String)
unfolding match_tail
match_bars [] = none
match_bars (c ∷ s) =
    let later = match_bars s in
    if eqb (code c) b'|'
    then elim (match_tail s) [ some found ↦ some found | none ↦ later ]
    else later

unfoldable pub parse_istio_cluster_name : String → Option (String × ℕ × String)
unfolding has_break match_bars
parse_istio_cluster_name s = if has_break s then none else match_bars s
