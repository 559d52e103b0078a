-- ===== src/Errors/Layers.antt =====
-- What an error that was wrapped several times says.
use istio_oidc.Common.{
  String, List, [], ◌∷◌, Option, none, some, ok, ◌≡◌, inl, inr, refl, arith, sym, ap, ◌∙◌, ◌==◌,
  eq_iff, Bool-cases, subst, >>=-eq-ok, not, select, select-hit, select-miss,
}
use Prim.Native.String.{◌++◌}
use istio_oidc.Common.Map
use istio_oidc.Common.Map.{GoMap, Distinct, Lacks, get-put, get-Lacks, Distinct-put}
use istio_oidc.Errors.{
  Field, text, value, Error, foreign, annotated, caused, mk_fields, new_error, error_text, put_all,
  error_fields,
}

-- The first of two, if there is one.
abbrev pub first_of : Option Field → Option Field → Option Field
first_of none o = o
first_of (some v) o = some v

first_of-none : (o : Option Field) → first_of o none ≡ o
first_of-none none = refl
first_of-none (some v) = refl

get-put_all :
    (k : String) (fields m : GoMap Field)
    → Distinct m
    → Map.get k (put_all fields m) ≡ first_of (Map.get k m) (Map.get k fields)
unfolding put_all Map.get
get-put_all k fields [] d = refl
get-put_all k fields ((j, v) ∷ m) d =
    get-put_all k (Map.put j v fields) m d.1 ∙ elim (Bool-cases (j == k)) [
      | inl same ↦ ground (arith, get-put j k v fields, get-Lacks j m d.0, eq_iff j k, same)
      | inr other ↦ rw (get-put j k v fields, other)
    ]

put_all-Distinct : (fields m : GoMap Field) → Distinct fields → Distinct (put_all fields m)
unfolding put_all
put_all-Distinct fields [] d = d
put_all-Distinct fields ((k, v) ∷ m) d =
    put_all-Distinct (Map.put k v fields) m (Distinct-put k v fields d)

-- What an error gives for a key: that of the outermost layer that has it.
abbrev pub layered : String → Error → Option Field
layered k (foreign msg) = none
layered k (annotated msg fields) = Map.get k fields
layered k (caused msg fields cause) = first_of (Map.get k fields) (layered k cause)

-- Each layer's fields are a map.
abbrev pub AreMaps : Error → Type 0
AreMaps (foreign msg) = Unit
AreMaps (annotated msg fields) = Distinct fields
AreMaps (caused msg fields cause) = Distinct fields × AreMaps cause

error_fields-Distinct : (e : Error) → Distinct (error_fields e)
unfolding error_fields
error_fields-Distinct (foreign msg) = tt
error_fields-Distinct (annotated msg fields) = put_all-Distinct [] fields tt
error_fields-Distinct (caused msg fields cause) =
    put_all-Distinct (put_all [] (error_fields cause)) fields
      (put_all-Distinct [] (error_fields cause) tt)

nothing : (k : String) → Map.get {V = Field} k [] ≡ none
unfolding Map.get
nothing k = refl

error_fields-get : (e : Error) (k : String) → AreMaps e → Map.get k (error_fields e) ≡ layered k e
unfolding error_fields
error_fields-get (foreign msg) k d = nothing k
error_fields-get (annotated msg fields) k d =
    get-put_all k [] fields d ∙ rw (nothing k) (first_of-none (Map.get k fields))
error_fields-get (caused msg fields cause) k d =
    get-put_all k (put_all [] (error_fields cause)) fields d.0
    ∙ ap (first_of (Map.get k fields)) (
        get-put_all k [] (error_fields cause) (error_fields-Distinct cause)
        ∙ rw (nothing k)
            (first_of-none (Map.get k (error_fields cause)) ∙ error_fields-get cause k d.1))

-- The messages that an error was wrapped in, outermost first, and the message of its origin.
abbrev pub wrappers : Error → List String
wrappers (foreign msg) = []
wrappers (annotated msg fields) = []
wrappers (caused msg fields cause) = msg ∷ wrappers cause

abbrev pub origin : Error → String
origin (foreign msg) = msg
origin (annotated msg fields) = msg
origin (caused msg fields cause) = origin cause

-- Messages in a row, each with a colon behind it.
abbrev pub introduced : List String → String → String
introduced [] last = last
introduced (msg ∷ msgs) last = msg ++ (": " ++ introduced msgs last)

error_text-introduced :
    (e : Error)
    → error_text e ≡ introduced (select (λ msg. not (msg == "")) (wrappers e)) (origin e)
unfolding error_text
error_text-introduced (foreign msg) = refl
error_text-introduced (annotated msg fields) = refl
error_text-introduced (caused msg fields cause) =
    let full = λ (m : String). not (m == "") in
    elim (Bool-cases (msg == "")) [
      | inl e ↦
          rw e (error_text-introduced cause)
          ∙ ap (λ l. introduced l (origin cause))
              (sym (select-miss full msg (wrappers cause) (ap not e)))
      | inr e ↦
          rw e (ap (λ t. msg ++ (": " ++ t)) (error_text-introduced cause))
          ∙ ap (λ l. introduced l (origin cause))
              (sym (select-hit full msg (wrappers cause) (ap not e)))
    ]

-- An error says the messages that it was wrapped in, the outermost first and the empty ones left out,
-- and then the message of its origin, with colons between them. For each key it gives the field of
-- the outermost layer that has one.
pub wrapped_error_lem :
    (e : Error) (k : String)
    → AreMaps e
    → (error_text e ≡ introduced (select (λ msg. not (msg == "")) (wrappers e)) (origin e))
      × (Map.get k (error_fields e) ≡ layered k e)
wrapped_error_lem e k d = (error_text-introduced e, error_fields-get e k d)

mk_fields-Distinct :
    (meta : List Field) (fields made : GoMap Field)
    → Distinct fields
    → mk_fields meta fields ≡ ok made
    → Distinct made
unfolding mk_fields
mk_fields-Distinct [] fields made d h = subst Distinct (cc) d
mk_fields-Distinct (k ∷ []) fields made d h = absurd (cc)
mk_fields-Distinct (text k ∷ (v ∷ meta)) fields made d h =
    mk_fields-Distinct meta (Map.put k v fields) made (Distinct-put k v fields d) h
mk_fields-Distinct (value k ∷ (v ∷ meta)) fields made d h = absurd (cc)

-- What `New` makes has a map of fields, and `Wrap` adds one.
pub new_error-AreMaps :
    (msg : String) (meta : List Field) (e : Error) → new_error msg meta ≡ ok e → AreMaps e
unfolding new_error
new_error-AreMaps msg meta e h =
    let (fields, made, q) = >>=-eq-ok (mk_fields meta []) _ h in
    subst AreMaps {x = annotated msg fields} (cc) (mk_fields-Distinct meta [] fields tt made)
