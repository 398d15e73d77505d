-- ===== src/Ui/Mux.antt =====
-- internal/pkg/server/ui/handlers.go, the middleware and the routes, and
-- internal/pkg/server/probe/server.go, the probe page. A path is one that `http.ServeMux` passes to
-- a handler: it answers a path that is not clean, and `/ui` or `/ui/assets`, by a redirect of its own.
pub mod Laws
use mesh_checker.Base.{
  ℕ, Bool, true, false, ◌&&◌, Option, none, some, List, [], ◌∷◌, ◌++◌, Text, text_eq, codes, ◌==◌,
  if◌then◌else◌, drop, length, Fallible, ok, err,
}
use mesh_checker.Probe.{Time}
use mesh_checker.Udp.Mac.{MacScheme}
use mesh_checker.Ui.Base64.{Base64}
use mesh_checker.Ui.Session.{Session, verify}
use mesh_checker.Ui.Http.{
  Request, Response, http_error, not_found, see_other, with_header, has_prefix, contains_text,
}

unfoldable pub redirect_or_unauth : Request → Response
unfolding text_eq
redirect_or_unauth r =
    if r.method == codes "GET" && contains_text r.accept (codes "text/html")
    then see_other (codes "/ui/login")
    else with_header (codes "WWW-Authenticate") (codes "Cookie")
        (http_error 401 (codes "unauthorised"))

abbrev pub Handler : Type 0
Handler = Request → Time → Response

module _ (h : MacScheme) (b64 : Base64) where
  -- `authMiddleware`; `none` is a nil session.
  unfoldable pub auth_middleware : Option Session → Handler → Handler
  auth_middleware none next r now = http_error 401 (codes "auth not configured")
  auth_middleware (some session) next r now = elim r.cookie [
    | none ↦ redirect_or_unauth r
    | some token ↦ elim (verify h b64 session token now) [
      | err e ↦ redirect_or_unauth r
      | ok user ↦ next (record r { mesh_user = user }) now
    ]
  ]

-- `strings.HasSuffix(s, suffix)`
unfoldable pub has_suffix : Text → Text → Bool
unfolding text_eq
has_suffix [] suffix = suffix == []
has_suffix (c ∷ s) suffix = if c ∷ s == suffix then true else has_suffix s suffix

unfoldable pub content_type_for : Text → Text
content_type_for name =
    if has_suffix name (codes ".js")
    then codes "application/javascript"
    else if has_suffix name (codes ".css")
    then codes "text/css"
    else if has_suffix name (codes ".html")
    then codes "text/html; charset=utf-8"
    else codes "application/octet-stream"

abbrev pub with_common_headers : Handler → Handler
with_common_headers handler r now =
    with_header (codes "Referrer-Policy") (codes "same-origin")
      (with_header (codes "X-Content-Type-Options") (codes "nosniff") (handler r now))

pub record Deps : Type 0 where
  pub login : Option Handler
  pub sse : Option Handler
  pub session : Option Session

-- `NewHTTPHandler` of the probe listener: `/probe` for any method.
unfoldable pub probe_handler : Text → Handler
unfolding text_eq
probe_handler version r now =
    if r.path == codes "/probe"
    then record {
      status = 200;
      headers =
          (codes "Cache-Control", codes "no-store")
          ∷ (codes "Content-Type", codes "text/plain; charset=utf-8")
          ∷ [];
      cookie = none;
      body = codes "mesh-checker " ++ (version ++ (10 ∷ []));
    }
    else not_found

-- `static` holds the embedded files, `version` is the build's version.
module _ (h : MacScheme) (b64 : Base64) (static : Text → Option Text) (version : Text) where
  unfoldable pub serve_static : Text → Text → Response
  serve_static name content_type = elim (static name) [
    | none ↦ not_found
    | some b ↦ record {
      status = 200;
      headers =
          (codes "X-Mesh-Checker-Version", version) ∷ (codes "Content-Type", content_type) ∷ [];
      cookie = none;
      body = b;
    }
  ]

  abbrev login_route : Option Handler → Handler
  login_route none r now =
      serve_static (codes "static/login.html") (codes "text/html; charset=utf-8")
  login_route (some login) r now =
      if r.method == codes "POST"
      then login r now
      else serve_static (codes "static/login.html") (codes "text/html; charset=utf-8")

  -- The cookie is cleared: an empty value with a negative age.
  abbrev logout_route : Response
  logout_route = record (see_other (codes "/ui/login")) { cookie = some [] }

  abbrev assets_route : Handler
  assets_route r now =
      let name = codes "static/" ++ drop 11 r.path in serve_static name (content_type_for name)

  abbrev pub index_route : Handler
  index_route r now =
      if r.path == codes "/ui/"
      then serve_static (codes "static/index.html") (codes "text/html; charset=utf-8")
      else not_found

  -- Behind the routes of their own: the event stream, and all that is left below `/ui/`.
  unfoldable pub guarded_route : Option Handler → Option Session → Handler
  unfolding text_eq
  guarded_route none session r now = auth_middleware h b64 session index_route r now
  guarded_route (some sse) session r now =
      if r.path == codes "/ui/sse/status"
      then auth_middleware h b64 session sse r now
      else auth_middleware h b64 session index_route r now

  unfoldable pub route : Deps → Handler
  unfolding text_eq
  route d r now =
      if r.path == codes "/probe"
      then probe_handler version r now
      else if r.path == codes "/ui/login"
      then login_route d.login r now
      else if r.path == codes "/ui/logout"
      then logout_route
      else if has_prefix r.path (codes "/ui/assets/")
      then assets_route r now
      else if has_prefix r.path (codes "/ui/")
      then guarded_route d.sse d.session r now
      else not_found

  -- `NewMux`
  unfoldable pub new_mux : Deps → Handler
  new_mux d = with_common_headers (route d)
