-- ===== src/OpenId/Path.antt =====
-- state/openidprovider/path.go: the parser of role paths. A `[]rune` is a text, read from its front;
-- indexing an empty slice is a panic.
-- The texts' own `[]` and `∷` are in scope here, not those of lists.
pub mod Escapes
pub mod Fuel
pub mod Written
pub mod RoundTrip
use Prim.Native.Char.{Char, code}
use Prim.Native.String.{String, [], ◌∷◌, ◌++◌}
use mathlib.Core.List
use istio_oidc.Common.{
  ℕ, zero, suc, ◌+◌, Bool, ◌&&◌, ◌||◌, not, Option, none, some, if◌then◌else◌, eqb, List, ◌==◌,
}
use istio_oidc.OpenId.Chars.{
  UnicodeTables, is_id_start, is_id_continue, rune_text, hex_value, text_length,
}

pub data PathError : Type 0 where
  empty_identifier : PathError
  expected_dot : Char → PathError
  end_in_quotes : String → PathError
  end_in_escape : PathError
  unknown_escape : Char → PathError
  end_in_codepoint : PathError
  invalid_codepoint : String → PathError
  out_of_fuel : PathError

pub data Parsed {ℓ} (A : Type ℓ) : Type ℓ where
  ok : A → Parsed A
  err : PathError → Parsed A
  panic : Parsed A

infixl 10 ◌>>=◌
abbrev pub ◌>>=◌ {ℓ κ} : {A : Type ℓ} {B : Type κ} → Parsed A → (A → Parsed B) → Parsed B
ok a >>= f = f a
err e >>= f = err e
panic >>= f = panic

unfoldable pub codepoint : String → Parsed (String × String)
codepoint (a ∷ (b ∷ (c ∷ (d ∷ str)))) =
    let hex = a ∷ (b ∷ (c ∷ (d ∷ []))) in
    elim (hex_value 0 hex) [ none ↦ err (invalid_codepoint hex) | some n ↦ ok (rune_text n, str) ]
codepoint _ = err end_in_codepoint

-- The cases of `switch r` that answer a fixed text.
unfoldable pub simple_escape : ℕ → Option String
simple_escape c =
    if eqb c b'"'
    then some "\""
    else if eqb c 0x5c
    then some "\\"
    else if eqb c b'/'
    then some "/"
    else if eqb c b'b'
    then some (rune_text 8)
    else if eqb c b'f'
    then some (rune_text 12)
    else if eqb c b'n'
    then some (rune_text 10)
    else if eqb c b'r'
    then some (rune_text 13)
    else if eqb c b't'
    then some (rune_text 9)
    else none

-- The whole `switch r`, on the rest of the text; its cases exclude one another.
unfoldable pub escape : Char → String → Parsed (String × String)
escape r str = elim (simple_escape (code r)) [
  | some esc ↦ ok (esc, str)
  | none ↦ if eqb (code r) b'u' then codepoint str else err (unknown_escape r)
]

-- `r := str[1]; str = str[2:]`
unfoldable pub escaped : String → Parsed (String × String)
escaped [] = err end_in_escape
escaped (c ∷ []) = err end_in_escape
escaped (c ∷ (r ∷ str)) = escape r str

-- The loop of `quoted`, with as much fuel as there are characters.
unfoldable pub quoted_loop : ℕ → String → String → Parsed (String × String)
quoted_loop zero id [] = err (end_in_quotes id)
quoted_loop zero id (r ∷ str) = err out_of_fuel
quoted_loop (suc fuel) id [] = err (end_in_quotes id)
quoted_loop (suc fuel) id (r ∷ str) =
    let plain = quoted_loop fuel (id ++ (r ∷ [])) str in
    let special = escaped str >>= λ p. quoted_loop fuel (id ++ p.0) p.1 in
    if eqb (code r) b'"' then ok (id, str) else if eqb (code r) 0x5c then special else plain

unfoldable pub quoted : String → Parsed (String × String)
quoted [] = panic
quoted (c ∷ str) = quoted_loop (text_length str) "" str

-- `append(ids, id)`
abbrev pub snoc : List String → String → List String
snoc ids id = List.◌++◌ ids (List.◌∷◌ id List.[])

-- The loop's body behind the identifier, with the next round as an argument.
abbrev pub continue_path :
    (List String → String → Parsed (List String × String))
    → List String
    → String × String
    → Parsed (List String × String)
continue_path next ids (id, []) = if id == "" then err empty_identifier else ok (snoc ids id, [])
continue_path next ids (id, c ∷ rest) =
    if id == ""
    then err empty_identifier
    else if eqb (code c) b'.'
    then next (snoc ids id) rest
    else err (expected_dot c)

module _ (u : UnicodeTables) where
  unfoldable pub starts_id : ℕ → Bool
  starts_id r = eqb r b'$' || eqb r b'_' || is_id_start u r

  unfoldable pub continues_id : ℕ → Bool
  continues_id r = eqb r b'$' || eqb r b'_' || eqb r 0x200c || eqb r 0x200d || is_id_continue u r

  -- The characters up to the first that does not go on with the identifier, and the rest.
  unfoldable pub span_id : String → String × String
  span_id [] = ([], [])
  span_id (r ∷ str) =
      let (taken, rest) = span_id str in
      if continues_id (code r) then (r ∷ taken, rest) else ([], r ∷ str)

  unfoldable pub unquoted : String → Parsed (String × String)
  unquoted [] = panic
  unquoted (r ∷ str) =
      if starts_id (code r)
      then (let (taken, rest) = span_id str in ok (r ∷ taken, rest))
      else ok ("", r ∷ str)

  unfoldable pub identifier : String → Parsed (String × String)
  identifier [] = panic
  identifier (c ∷ str) = if eqb (code c) b'"' then quoted (c ∷ str) else unquoted (c ∷ str)

  -- The loop of `parseRolePath`; each round takes a character at least.
  unfoldable pub path_loop : ℕ → List String → String → Parsed (List String × String)
  path_loop zero ids str = err out_of_fuel
  path_loop (suc fuel) ids str = identifier str >>= continue_path (path_loop fuel) ids

  unfoldable pub parse_role_path : String → Parsed (List String × String)
  parse_role_path str = path_loop (suc (text_length str)) List.[] str
