-- ===== src/OpenId/Examples.antt =====
-- Runs of the role path parser and of the role extraction, and the theorems about them at concrete
-- inputs.
use Prim.Native.Char.{Char, char}
use Prim.Native.String
use istio_oidc.Common.{ℕ, String, false, ◌&&◌, ◌||◌, [], ◌∷◌, some, ok, leb, eqb, ◌≡◌, ◌≢◌, refl}
use istio_oidc.Common.Map
use istio_oidc.OpenId.Chars.{UnicodeTables, rune_text, hex_value, is_id_start, is_id_continue}
use istio_oidc.OpenId.Path.{
  Parsed, out_of_fuel, unknown_escape, parse_role_path, snoc, starts_id, continues_id,
}
use istio_oidc.OpenId.Path.Written.{
  Segment, bare, in_quotes, IsReadable, HasSyntax, before_dots, names, name, written, quote_mark,
}
use istio_oidc.OpenId.Path.Escapes.{backslash, IsUnknown, parse-escape}
use istio_oidc.OpenId.Path.Fuel.{parse_role_path-fuel}
use istio_oidc.OpenId.Path.RoundTrip.{parse-written}
use istio_oidc.OpenId.Roles.{
  text, array, object, Fields, end, field, nil, item, extract_roles, member, convert, convert_slice,
  convert_value,
}
use istio_oidc.OpenId.Roles.Walk.{Outcome, extract_roles-Outcome}
use istio_oidc.OpenId.Provider.{access_token, RoleMapping, OpenIdProvider}
use istio_oidc.OpenId.Token.{
  Jose, OAuth2Token, TokenData, extract_token_data, collect_roles, claims, claims_unsafe, add_roles,
  subject_of,
}
use istio_oidc.OpenId.Token.Verified.{IsVerified, IsDrawn, extract_token_data-IsVerified}
use istio_oidc.OpenId.Token.Granted.{roles_of, granted, collect_roles_lem}

surrogate_text : rune_text 0xD83D ≡ "�"
unfolding rune_text
surrogate_text = refl

hex_value_test : hex_value 0 "00e9" ≡ some 0xe9
unfolding hex_value
hex_value_test = refl

-- The range tables on ASCII.
abbrev pub ascii : UnicodeTables
ascii = record {
  letter = λ c. leb b'a' c && leb c b'z' || leb b'A' c && leb c b'Z';
  letter_number = λ c. false;
  other_id_start = λ c. false;
  nonspacing_mark = λ c. false;
  spacing_mark = λ c. false;
  decimal_digit = λ c. leb b'0' c && leb c b'9';
  connector = λ c. eqb c b'_';
  other_id_continue = λ c. false;
  pattern_syntax = λ c. leb 0x21 c && leb c 0x2f || leb 0x3a c && leb c 0x40 || eqb c 0x5c;
  pattern_white_space = λ c. eqb c 0x20 || leb 9 c && leb c 13;
}

abbrev realm : Segment
realm = bare (char b'r' tt) "ealm"

abbrev my_app : Segment
my_app = in_quotes (char b'm' tt) "y.app"

ascii-HasSyntax : HasSyntax ascii
ascii-HasSyntax = record { dot_syntax = refl; quote_syntax = refl }

realm-IsReadable : IsReadable ascii realm
unfolding starts_id continues_id is_id_start is_id_continue
realm-IsReadable = (refl, (refl, (refl, (refl, (refl, tt)))))

my_app-IsReadable : IsReadable ascii my_app
my_app-IsReadable =
    (refl, refl, (refl, refl, (refl, refl, (refl, refl, (refl, refl, (refl, refl, tt))))))

parse-written_example :
    parse_role_path ascii (before_dots (realm ∷ []) (written my_app))
    ≡ Parsed.ok (snoc (names (realm ∷ [])) (name my_app), "")
parse-written_example =
    parse-written ascii (realm ∷ []) my_app ascii-HasSyntax (realm-IsReadable, tt) my_app-IsReadable

parse_role_path-fuel_example : parse_role_path ascii "realm.\"my.app\"" ≢ Parsed.err out_of_fuel
parse_role_path-fuel_example = parse_role_path-fuel ascii "realm.\"my.app\""

abbrev letter_x : Char
letter_x = char b'x' tt

x-IsUnknown : IsUnknown letter_x
x-IsUnknown = (refl, refl, refl, refl, refl, refl, refl, refl, refl)

-- The text is `"a\\"x"`, whose escape sequence is a well-formed one.
parse-escape_example :
    parse_role_path ascii (
      Prim.Native.String.◌∷◌ quote_mark (
        Prim.Native.String.◌++◌ "a" (
          Prim.Native.String.◌∷◌ backslash (
            Prim.Native.String.◌∷◌ quote_mark
              (Prim.Native.String.◌∷◌ letter_x (Prim.Native.String.◌∷◌ quote_mark ""))))))
    ≡ Parsed.err (unknown_escape letter_x)
parse-escape_example =
    parse-escape ascii "a" quote_mark letter_x (Prim.Native.String.◌∷◌ quote_mark "")
      (refl, refl, tt) x-IsUnknown

abbrev claims_of_alice : Fields ℕ
claims_of_alice =
    field "sub" (text "alice")
      (field "realm" (object (field "roles" (array (item (text "admin") nil)) end)) end)

-- A provider whose key signs every token, of claims that run out at 100.
abbrev pub trusting : Jose
trusting = record {
  Float = ℕ;
  Jws = String;
  Keys = String;
  Claims = ℕ;
  format = λ n. "0";
  fetch_keys = λ uri. ok uri;
  parse_signed = λ tok. some tok;
  std_claims = λ jws keys. some 100;
  json_claims = λ jws keys. some claims_of_alice;
  unsafe_claims = λ jws. some 100;
  validate = λ expiry now. leb now expiry;
  expiry_time = λ expiry. expiry;
}

abbrev realm_roles : RoleMapping
realm_roles = record { from = access_token; prefix = "realm:"; path = "realm" ∷ "roles" ∷ [] }

abbrev pub keycloak : OpenIdProvider
keycloak = record {
  name = "default/keycloak";
  cfg = record {
    authorization_endpoint = "https://idp/auth";
    token_endpoint = "https://idp/token";
    jwks_uri = "https://idp/keys";
  };
  maps = realm_roles ∷ [];
}

abbrev pub login_token : OAuth2Token
login_token = record { access = "at"; refresh = "rt"; id = some "idt"; expiry = 50_000_000_007 }

abbrev pub login_data : TokenData
login_data = record { subject = "alice"; expiry = 100; roles = ("realm:", "admin" ∷ []) ∷ [] }

pub login_data_extracted : extract_token_data trusting keycloak login_token 5 6 ≡ ok login_data
unfolding extract_token_data claims claims_unsafe collect_roles extract_roles member convert
    convert_slice convert_value add_roles subject_of Map.get Map.put
login_data_extracted = refl

extract_token_data-IsVerified_example :
    (jwks : String) × (raw : String) × (at : Fields ℕ) × (idt : Fields ℕ) × (trusting.fetch_keys
        keycloak.cfg.jwks_uri
      ≡ ok jwks)
    × (login_token.id ≡ some raw)
    × IsVerified trusting login_token.access jwks 5 at
    × IsVerified trusting raw jwks 6 idt
    × IsDrawn trusting keycloak login_token at idt login_data
extract_token_data-IsVerified_example =
    extract_token_data-IsVerified trusting keycloak login_token 5 6 login_data login_data_extracted

roles_collected :
    collect_roles trusting claims_of_alice claims_of_alice keycloak.maps []
    ≡ ok (("realm:", "admin" ∷ []) ∷ [])
unfolding collect_roles extract_roles member convert convert_slice convert_value add_roles Map.get
    Map.put
roles_collected = refl

collect_roles_lem_example :
    roles_of (("realm:", "admin" ∷ []) ∷ []) "realm:"
    ≡ granted trusting claims_of_alice claims_of_alice "realm:" keycloak.maps
collect_roles_lem_example =
    collect_roles_lem trusting claims_of_alice claims_of_alice keycloak.maps
      (("realm:", "admin" ∷ []) ∷ []) "realm:" roles_collected

extract_roles-Outcome_example :
    Outcome trusting.format ("realm" ∷ "roles" ∷ []) (object claims_of_alice)
extract_roles-Outcome_example =
    extract_roles-Outcome trusting.format "realm" ("roles" ∷ []) (object claims_of_alice)
