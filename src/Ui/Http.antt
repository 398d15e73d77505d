-- ===== src/Ui/Http.antt =====
-- What the handlers of internal/pkg/server/ui use of package net/http.
use mesh_checker.Base.{
  ℕ, Bool, true, false, ◌||◌, ◌&&◌, Option, none, List, [], ◌∷◌, ◌++◌, Text, nat_eq, ◌==◌, codes,
  Fallible,
}

-- A request: its method and path, the `Accept` header, the session cookie, and the fields `name` and
-- `password` of the form, or the error of `ParseForm`. A handler behind the middleware finds the
-- user in the header `X-Mesh-User`.
pub record Request : Type 0 where
  pub method : Text
  pub path : Text
  pub accept : Text
  pub cookie : Option Text
  pub form : Fallible Text (Text × Text)
  pub mesh_user : Text

-- A response: the status, the headers that the program sets, the cookie that it sets, and the body.
pub record Response : Type 0 where
  pub status : ℕ
  pub headers : List (Text × Text)
  pub cookie : Option Text
  pub body : Text

-- `http.Error`, which ends the body with a line feed.
abbrev pub http_error : ℕ → Text → Response
http_error status text = record {
  status = status;
  headers = [];
  cookie = none;
  body = text ++ (10 ∷ []);
}

-- `http.NotFound`
abbrev pub not_found : Response
not_found = http_error 404 (codes "404 page not found")

-- `http.Redirect` with `http.StatusSeeOther`. The short page that it writes for a GET, which browsers
-- do not show, is left out.
abbrev pub see_other : Text → Response
see_other path = record {
  status = 303;
  headers = (codes "Location", path) ∷ [];
  cookie = none;
  body = [];
}

abbrev pub with_header : Text → Text → Response → Response
with_header name value r = record r { headers = (name, value) ∷ r.headers }

-- `strings.HasPrefix(s, prefix)`
unfoldable pub has_prefix : Text → Text → Bool
unfolding nat_eq
has_prefix s [] = true
has_prefix [] (p ∷ prefix) = false
has_prefix (c ∷ s) (p ∷ prefix) = c == p && has_prefix s prefix

-- `strings.Contains(s, part)`
unfoldable pub contains_text : Text → Text → Bool
contains_text [] part = has_prefix [] part
contains_text (c ∷ s) part = has_prefix (c ∷ s) part || contains_text s part
