-- ===== src/Auth/Signer.antt =====
-- A signer for the checks of the auth package: it writes the key and the claims one after the other
-- into the token, and reads them back.
use Prim.Native.Char.{Char, char, code}
use istio_oidc.Common.{
  ℕ, zero, suc, String, false, List, [], ◌∷◌, Option, none, some, ◌≡◌, refl, ap, if◌then◌else◌,
  ◌==◌, eqb, length, eq_refl, eq_iff, Bool-cases, inl, inr, subst, ◌∙◌,
}
use istio_oidc.Common.Map.{GoMap}
use istio_oidc.Auth.{BearerClaims}

-- How a value is put before a text, and how it is taken off again.
record Codec {ℓ} (A : Type ℓ) : Type ℓ where
  put : A → String → String
  take : String → A × String
  take-put : (a : A) (t : String) → take (put a t) ≡ (a, t)

abbrev more : Char
more = char b'x' tt

abbrev last : Char
last = char b';' tt

abbrev put_number : ℕ → String → String
put_number zero t = String.◌∷◌ last t
put_number (suc n) t = String.◌∷◌ more (put_number n t)

abbrev take_number : String → ℕ × String
take_number String.[] = (0, "")
take_number (String.◌∷◌ c t) =
    let (n, rest) = take_number t in if eqb (code c) b'x' then (suc n, rest) else (0, t)

take_number-put : (n : ℕ) (t : String) → take_number (put_number n t) ≡ (n, t)
take_number-put zero t = refl
take_number-put (suc n) t = rw (take_number-put n t) refl

abbrev put_text : String → String → String
put_text String.[] t = String.◌∷◌ last t
put_text (String.◌∷◌ c s) t = String.◌∷◌ more (String.◌∷◌ c (put_text s t))

abbrev take_text : String → String × String
take_text String.[] = ("", "")
take_text (String.◌∷◌ m String.[]) = ("", "")
take_text (String.◌∷◌ m (String.◌∷◌ c t)) =
    let (s, rest) = take_text t in
    if eqb (code m) b'x' then (String.◌∷◌ c s, rest) else ("", String.◌∷◌ c t)

take_text-put : (s t : String) → take_text (put_text s t) ≡ (s, t)
take_text-put String.[] String.[] = refl
take_text-put String.[] (String.◌∷◌ c t) = refl
take_text-put (String.◌∷◌ c s) t = rw (take_text-put s t) refl

abbrev number : Codec ℕ
number = record { put = put_number; take = take_number; take-put = take_number-put }

abbrev text : Codec String
text = record { put = put_text; take = take_text; take-put = take_text-put }

module _ {A : Type 0} (c : Codec A) where
  abbrev put_all : List A → String → String
  put_all [] t = t
  put_all (a ∷ l) t = c.put a (put_all l t)

  abbrev take_all : ℕ → String → List A × String
  take_all zero t = ([], t)
  take_all (suc n) t = let (a, t') = c.take t in let (l, rest) = take_all n t' in (a ∷ l, rest)

  take_all-put : (l : List A) (t : String) → take_all (length l) (put_all l t) ≡ (l, t)
  take_all-put [] t = refl
  take_all-put (a ∷ l) t = rw (c.take-put a (put_all l t), take_all-put l t) refl

  -- A list after its length.
  abbrev list : Codec (List A)
  list = record {
    put = λ l t. put_number (length l) (put_all l t);
    take = λ t. let (n, rest) = take_number t in take_all n rest;
    take-put = λ l t. rw (take_number-put (length l) (put_all l t)) (take_all-put l t);
  }

abbrev pair : {A B : Type 0} → Codec A → Codec B → Codec (A × B)
pair c d = record {
  put = λ p t. c.put p.0 (d.put p.1 t);
  take = λ t. let (a, t') = c.take t in let (b, rest) = d.take t' in ((a, b), rest);
  take-put = λ p t. rw (c.take-put p.0 (d.put p.1 t), d.take-put p.1 t) refl;
}

abbrev of_list : {A : Type 0} → List A → Option A
of_list [] = none
of_list (a ∷ l) = some a

abbrev to_list : {A : Type 0} → Option A → List A
to_list none = []
to_list (some a) = a ∷ []

of_list-to_list : {A : Type 0} (o : Option A) → of_list (to_list o) ≡ o
of_list-to_list none = refl
of_list-to_list (some a) = refl

abbrev token : Codec (String × (String × (List ℕ × GoMap (List String))))
token = pair text (pair text (pair (list number) (list (pair text (list text)))))

-- The token of some claims by a key.
pub sealed : String → BearerClaims → String
sealed key claims = token.put (key, (claims.subject, (to_list claims.expiry, claims.roles))) ""

-- The claims of what was read, where it starts with the key.
abbrev checked :
    String → (String × (String × (List ℕ × GoMap (List String)))) × String → Option BearerClaims
checked key ((k, (subject, (expiry, roles))), rest) =
    if k == key
    then some (record { subject = subject; expiry = of_list expiry; roles = roles })
    else none

pub opened : String → String → Option BearerClaims
opened key tok = checked key (token.take tok)

pub opened-sealed :
    (key : String) (claims : BearerClaims) → opened key (sealed key claims) ≡ some claims
unfolding opened sealed
opened-sealed key claims =
    ap (checked key)
      (token.take-put (key, (claims.subject, (to_list claims.expiry, claims.roles))) "")
    ∙ rw (eq_refl key, of_list-to_list claims.expiry) refl

IsFilled : String → Type 0
IsFilled String.[] = ⊥
IsFilled (String.◌∷◌ c t) = Unit

cons-empty : (c : Char) (t : String) → (String.◌∷◌ c t == "") ≡ false
unfolding IsFilled
cons-empty c t = elim (Bool-cases (String.◌∷◌ c t == "")) [
  | inl same ↦ absurd (subst IsFilled ((eq_iff (String.◌∷◌ c t) "").0 same) tt)
  | inr other ↦ other
]

put_text-empty : (s t : String) → (put_text s t == "") ≡ false
put_text-empty String.[] t = cons-empty last t
put_text-empty (String.◌∷◌ c s) t = cons-empty more (String.◌∷◌ c (put_text s t))

pub sealed-empty : (key : String) (claims : BearerClaims) → (sealed key claims == "") ≡ false
unfolding sealed
sealed-empty key claims = put_text-empty key _
