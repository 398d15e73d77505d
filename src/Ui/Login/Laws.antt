-- ===== src/Ui/Login/Laws.antt =====
-- Who logs in, and what the cookie of a login is worth.
use mesh_checker.Base.{
  ◌<◌, ◌≡◌, sym, ◌∙◌, ◌↔◌, ◌⊎◌, inl, inr, Bool, true, some, List, [], ◌∷◌, Text, text_eq, codes,
  if◌then◌else◌, Fallible, ok, err, arith, All, Fallible-cases,
}
use mesh_checker.Base.Int.{◌+ℤ◌, ◌≤ℤ◌, leb_ℤ, min_int64, max_int64}
use mesh_checker.Config.{User}
use mesh_checker.Probe.{Time}
use mesh_checker.Udp.Mac.{MacScheme}
use mesh_checker.Ui.Base64.{Base64}
use mesh_checker.Ui.Session.{Session, expired, unix, issue, verify}
use mesh_checker.Ui.Session.Laws.{verify-issue}
use mesh_checker.Ui.Http.{Request}
use mesh_checker.Ui.Login.{authenticate, submit, login}

ok_name : {n m p q : Text} → Path (Fallible Text (Text × Text)) (ok (n, p)) (ok (m, q)) → n ≡ m
ok_name e = ground arith

module _ (matches : Text → Text → Bool) where
  -- Some user has the name and a hash that the password matches.
  abbrev pub HasUser : List User → Text → Text → Type 0
  HasUser [] name password = ⊥
  HasUser (u ∷ users) name password =
      ((u.name ≡ name) × (matches u.password_hash password ≡ true)) ⊎ HasUser users name password

  -- A name and a password are accepted exactly when some configured user of that name has a hash
  -- that the password matches.
  pub authenticate-HasUser :
      (users : List User) (name password : Text)
      → (authenticate matches users name password ≡ true) ↔ HasUser users name password
  unfolding authenticate
  authenticate-HasUser [] name password = (λ h. cc, λ h. absurd h)
  authenticate-HasUser (u ∷ users) name password =
      ground (arith, authenticate-HasUser users name password)

  module _ (h : MacScheme) (b64 : Base64) (session : Session) (users : List User) where
    submit-cookie :
        (name password : Text) (now : Time) {token : Text}
        → (submit matches h b64 session users name password now).cookie ≡ some token
        → (authenticate matches users name password ≡ true)
          × (issue h b64 session name now ≡ ok token)
    unfolding submit
    submit-cookie name password now e = ground arith

    -- What stands behind a cookie that a login sets.
    pub record LoggedIn (r : Request) (now : Time) (token : Text) : Type 0 where
      pub name : Text
      pub password : Text
      pub posted : r.method ≡ codes "POST"
      pub entered : r.form ≡ ok (name, password)
      pub accepted : HasUser users name password
      pub issued : issue h b64 session name now ≡ ok token

    login-form :
        (r : Request) (now : Time) {token : Text}
        → (login matches h b64 session users r now).cookie ≡ some token
        → (name : Text) × (password : Text) × (r.method ≡ codes "POST")
          × (r.form ≡ ok (name, password))
          × ((submit matches h b64 session users name password now).cookie ≡ some token)
    unfolding login
    login-form r now e = elim (Fallible-cases r.form) [
      | inl (x, q) ↦ absurd (ground (arith, q))
      | inr ((name, password), q) ↦ (name, password, ground (arith, q), q, ground (arith, q))
    ]

    -- A login that sets a cookie was posted with a name and a password that a configured user
    -- matches, and the cookie is a token issued for that name.
    pub login-LoggedIn :
        (r : Request) (now : Time) {token : Text}
        → (login matches h b64 session users r now).cookie ≡ some token
        → LoggedIn r now token
    login-LoggedIn r now e =
        let (name, password, posted, entered, submitted) = login-form r now e in
        let (accepted, issued) = submit-cookie name password now submitted in
        record {
          name = name;
          password = password;
          posted = posted;
          entered = entered;
          accepted = (authenticate-HasUser users name password).0 accepted;
          issued = issued;
        }

    -- The cookie of a login with a name of bytes, whose expiry an int64 holds, is verified as that
    -- of the name that was entered until it expires, and refused as expired from then on.
    pub verify-login :
        (r : Request) (now later : Time) (name password : Text) {token : Text}
        → r.form ≡ ok (name, password)
        → All (λ x. x < 256) name
        → min_int64 ≤ℤ unix (now +ℤ session.ttl)
        → unix (now +ℤ session.ttl) ≤ℤ max_int64
        → (login matches h b64 session users r now).cookie ≡ some token
        → verify h b64 session token later
          ≡ (if leb_ℤ (unix (now +ℤ session.ttl)) (unix later) then err expired else ok name)
    verify-login r now later name password form bytes lo hi e =
        let l = login-LoggedIn r now e in
        let same : l.name ≡ name = ok_name (sym l.entered ∙ form) in
        verify-issue h b64 session name now later bytes lo hi (rw same at l.issued)
