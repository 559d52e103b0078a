-- ===== src/Net.antt =====
-- The parts of net/url and net/http that the program calls: a parsed address, with the operations of
-- net/url as parameters, and cookies.
use istio_oidc.Common.{String, Option, List}
use istio_oidc.Common.Map.{GoMap}

-- `url.URL`: the path, the raw query, and what stands before the path, as written.
pub record Url : Type 0 where
  pub origin : String
  pub path : String
  pub raw_query : String

-- `url.Parse`, `URL.Query`, `Values.Encode`, `a.ResolveReference(b).String()` and `URL.RequestURI`.
pub record UrlLib : Type 0 where
  pub parse : String → Option Url
  pub query : Url → GoMap (List String)
  pub encode : GoMap (List String) → String
  pub resolve : Url → Url → String
  pub request_uri : Url → String

-- `http.Cookie`, of which the program reads the name and the value.
pub record Cookie : Type 0 where
  pub name : String
  pub value : String
