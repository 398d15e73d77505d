-- ===== src/Ui/Mux/Laws.antt =====
-- What the routes below `/ui/` ask for before they answer.
use mesh_checker.Base.{
  ◌≡◌, ◌≢◌, refl, subst, Bool-cases, ==→eq, nat_eq, inl, inr, true, false, Option, none, some, Text,
  text_eq, codes, ◌==◌, if◌then◌else◌, ok, err, arith,
}
use mesh_checker.Probe.{Time}
use mesh_checker.Udp.Mac.{MacScheme}
use mesh_checker.Ui.Base64.{Base64}
use mesh_checker.Ui.Session.{Session, verify}
use mesh_checker.Ui.Http.{Request, Response, http_error, has_prefix}
use mesh_checker.Ui.Mux.{
  Handler, Deps, redirect_or_unauth, auth_middleware, with_common_headers, index_route,
  guarded_route, route, new_mux,
}

-- A path below `/ui/` that is not one of the login, the logout or the assets.
pub record IsGuarded (path : Text) : Type 0 where
  pub below : has_prefix path (codes "/ui/") ≡ true
  pub no_login : (path == codes "/ui/login") ≡ false
  pub no_logout : (path == codes "/ui/logout") ≡ false
  pub no_asset : has_prefix path (codes "/ui/assets/") ≡ false

probe_apart :
    (path : Text) → has_prefix path (codes "/ui/") ≡ true → (path == codes "/probe") ≡ false
unfolding has_prefix nat_eq
probe_apart path below = elim (Bool-cases (path == codes "/probe")) [
  | inl e ↦ absurd (
      probe_below
        (subst (λ p. has_prefix p (codes "/ui/") ≡ true) (==→eq path (codes "/probe") e) below))
  | inr e ↦ e
]
  where
    probe_below : false ≢ true
    probe_below e = cc

module _ (h : MacScheme) (b64 : Base64) where
  -- The user whose token the request carries.
  abbrev pub verified_user : Option Session → Request → Time → Option Text
  verified_user none r now = none
  verified_user (some session) r now = elim r.cookie [
    | none ↦ none
    | some token ↦ elim (verify h b64 session token now) [ err e ↦ none | ok user ↦ some user ]
  ]

  abbrev pub refused : Option Session → Request → Response
  refused none r = http_error 401 (codes "auth not configured")
  refused (some session) r = redirect_or_unauth r

  abbrev pub guarded : Option Session → Handler → Handler
  guarded session next r now = elim (verified_user session r now) [
    | none ↦ refused session r
    | some user ↦ next (record r { mesh_user = user }) now
  ]

  auth_middleware-guarded :
      (session : Option Session) (next : Handler) (r : Request) (now : Time)
      → auth_middleware h b64 session next r now ≡ guarded session next r now
  unfolding auth_middleware
  auth_middleware-guarded none next r now = refl
  auth_middleware-guarded (some session) next r now = ground arith

  module _ (static : Text → Option Text) (version : Text) where
    -- The page or the stream at a guarded path.
    abbrev pub guarded_handler : Option Handler → Text → Handler
    guarded_handler none path = index_route h b64 static version
    guarded_handler (some sse) path =
        if path == codes "/ui/sse/status" then sse else index_route h b64 static version

    guarded_route-guarded :
        (sse : Option Handler) (session : Option Session) (r : Request) (now : Time)
        → guarded_route h b64 static version sse session r now
          ≡ guarded session (guarded_handler sse r.path) r now
    unfolding guarded_route
    guarded_route-guarded none session r now =
        auth_middleware-guarded session (index_route h b64 static version) r now
    guarded_route-guarded (some sse) session r now =
        elim (Bool-cases (r.path == codes "/ui/sse/status")) [
          | inl p ↦ simp (guarded_route, p, auth_middleware-guarded session sse r now) refl
          | inr p ↦
              simp
                (
                  guarded_route,
                  p,
                  auth_middleware-guarded session (index_route h b64 static version) r now,
                )
                refl
        ]

    -- A request below `/ui/`, the login, the logout and the assets apart, reaches its handler, with
    -- the user's name, exactly when it carries a token that the session verifies; any other is
    -- refused.
    pub new_mux-guarded :
        (d : Deps) (r : Request) (now : Time)
        → IsGuarded r.path
        → new_mux h b64 static version d r now
          ≡ with_common_headers (guarded d.session (guarded_handler d.sse r.path)) r now
    unfolding new_mux route
    new_mux-guarded d r now g =
        simp
          (
            new_mux,
            route,
            probe_apart r.path g.below,
            g.no_login,
            g.no_logout,
            g.no_asset,
            g.below,
            guarded_route-guarded d.sse d.session r now,
          )
          refl
