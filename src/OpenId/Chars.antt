-- ===== src/OpenId/Chars.antt =====
-- Characters of role paths: the tables of the `unicode` package, `string(rune(n))` and the
-- hexadecimal digits of `strconv.ParseUint(hex, 16, 16)`.
use Prim.Native.Nat.{compare, Ordering}
use Prim.Native.Char.{char, code, IsScalar, IsLt}
use Prim.Native.String.{String, [], ◌∷◌}
use istio_oidc.Common.{
  ℕ, suc, ◌+◌, ◌-◌, ◌*◌, Bool, ◌&&◌, ◌||◌, not, Option, none, some, leb, if◌then◌else◌,
}

-- The range tables that `unicode.In` is asked about.
pub record UnicodeTables : Type 0 where
  pub letter : ℕ → Bool
  pub letter_number : ℕ → Bool
  pub other_id_start : ℕ → Bool
  pub nonspacing_mark : ℕ → Bool
  pub spacing_mark : ℕ → Bool
  pub decimal_digit : ℕ → Bool
  pub connector : ℕ → Bool
  pub other_id_continue : ℕ → Bool
  pub pattern_syntax : ℕ → Bool
  pub pattern_white_space : ℕ → Bool

module _ (u : UnicodeTables) where
  open u use {
    letter, letter_number, other_id_start, nonspacing_mark, spacing_mark, decimal_digit, connector,
    other_id_continue, pattern_syntax, pattern_white_space,
  }

  unfoldable pub is_id_start : ℕ → Bool
  is_id_start r =
      (letter r || letter_number r || other_id_start r)
      && not (pattern_syntax r || pattern_white_space r)

  unfoldable pub is_id_continue : ℕ → Bool
  is_id_continue r =
      (letter r
        || letter_number r
        || other_id_start r
        || nonspacing_mark r
        || spacing_mark r
        || decimal_digit r
        || connector r
        || other_id_continue r)
      && not (pattern_syntax r || pattern_white_space r)

abbrev BothLt : Ordering → Ordering → Type 0
BothLt Ordering.lt o = IsLt o
BothLt Ordering.eq _ = ⊥
BothLt Ordering.gt _ = ⊥

abbrev LtOrBothLt : Ordering → Ordering → Ordering → Type 0
LtOrBothLt Ordering.lt _ _ = Unit
LtOrBothLt Ordering.eq o p = BothLt o p
LtOrBothLt Ordering.gt o p = BothLt o p

dec_IsLt : (o : Ordering) → Dec (IsLt o)
dec_IsLt Ordering.lt = yes tt
dec_IsLt Ordering.eq = no (λ h. h)
dec_IsLt Ordering.gt = no (λ h. h)

dec_BothLt : (o p : Ordering) → Dec (BothLt o p)
unfolding dec_IsLt
dec_BothLt Ordering.lt p = dec_IsLt p
dec_BothLt Ordering.eq p = no (λ h. h)
dec_BothLt Ordering.gt p = no (λ h. h)

dec_LtOrBothLt : (o p q : Ordering) → Dec (LtOrBothLt o p q)
unfolding dec_BothLt
dec_LtOrBothLt Ordering.lt p q = yes tt
dec_LtOrBothLt Ordering.eq p q = dec_BothLt p q
dec_LtOrBothLt Ordering.gt p q = dec_BothLt p q

-- Whether a number is a Unicode scalar value.
dec_IsScalar : (n : ℕ) → Dec (IsScalar n)
unfolding dec_LtOrBothLt
dec_IsScalar n = dec_LtOrBothLt (compare n 0xD800) (compare 0xDFFF n) (compare n 0x110000)

-- `string(rune(n))`: a surrogate or too large a number becomes U+FFFD.
unfoldable pub rune_text : ℕ → String
unfolding dec_IsScalar
rune_text n = elim (dec_IsScalar n) [ yes p ↦ char n p ∷ [] | no _ ↦ char 0xFFFD tt ∷ [] ]

-- The value of a hexadecimal digit.
unfoldable pub hex_digit : ℕ → Option ℕ
hex_digit c =
    if leb b'0' c && leb c b'9'
    then some (c - b'0')
    else if leb b'a' c && leb c b'f'
    then some (c - b'a' + 10)
    else if leb b'A' c && leb c b'F'
    then some (c - b'A' + 10)
    else none

-- `strconv.ParseUint(hex, 16, 16)` of a text of four characters: below 2 ^ 16 at once.
unfoldable pub hex_value : ℕ → String → Option ℕ
unfolding hex_digit
hex_value n [] = some n
hex_value n (c ∷ hex) = elim (hex_digit (code c)) [
  | none ↦ none
  | some d ↦ hex_value (n * 16 + d) hex
]

abbrev pub text_length : String → ℕ
text_length [] = 0
text_length (c ∷ s) = suc (text_length s)
