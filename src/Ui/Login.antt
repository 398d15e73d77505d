-- ===== src/Ui/Login.antt =====
-- internal/pkg/server/ui/login.go: the login form.
pub mod Laws
use mesh_checker.Base.{
  Bool, true, false, not, Option, none, some, List, [], ◌∷◌, Text, text_eq, codes, ◌==◌,
  if◌then◌else◌, Fallible, ok, err,
}
use mesh_checker.Config.{User}
use mesh_checker.Probe.{Time}
use mesh_checker.Udp.Mac.{MacScheme}
use mesh_checker.Ui.Base64.{Base64}
use mesh_checker.Ui.Session.{Session, SessionError, issue}
use mesh_checker.Ui.Http.{Request, Response, http_error, see_other}

-- `bcrypt.CompareHashAndPassword` without an error.
module _ (matches : Text → Text → Bool) where
  unfoldable pub authenticate : List User → Text → Text → Bool
  authenticate [] name password = false
  authenticate (u ∷ users) name password =
      let rest = authenticate users name password in
      if u.name == name then if matches u.password_hash password then true else rest else rest

  module _ (h : MacScheme) (b64 : Base64) (session : Session) (users : List User) where
    abbrev finish : Fallible SessionError Text → Response
    finish (err e) = http_error 500 (codes "internal error")
    finish (ok token) = record (see_other (codes "/ui/")) { cookie = some token }

    -- From the parsed form on. The delay of a failed login is left out.
    submit : Text → Text → Time → Response
    submit name password now =
        if authenticate users name password
        then finish (issue h b64 session name now)
        else http_error 401 (codes "unauthorised")

    -- `ServeHTTP` of the login handler.
    unfoldable pub login : Request → Time → Response
    unfolding submit text_eq
    login r now =
        if not (r.method == codes "POST")
        then http_error 405 (codes "method not allowed")
        else elim r.form [
          | err e ↦ http_error 400 (codes "bad request")
          | ok (name, password) ↦ submit name password now
        ]
