-- ===== src/Probe/Https/Reach.antt =====
-- An HTTPS probe of a node of the mesh, and what a success says.
use mesh_checker.Base.{
  ◌≡◌, ◌∙◌, ◌↔◌, refl, [], true, false, Option, Text, codes, nat_eq, text_eq, take, ok, arith,
  Fallible-cases, inl, inr,
}
use mesh_checker.Probe.{Target, Result, Time}
use mesh_checker.Udp.Mac.{MacScheme}
use mesh_checker.Ui.Base64.{Base64}
use mesh_checker.Ui.Http.{Request, Response, contains_text, has_prefix}
use mesh_checker.Ui.Mux.{Deps, probe_handler, route, new_mux}
use mesh_checker.Probe.Https.{body_marker, Client, check_response, probe}

-- The response that a success needs.
pub record Served (c : Client) (url : Text) : Type 0 where
  pub request : c.Request
  pub response : Response
  pub made : c.new_get url ≡ ok request
  pub sent : c.send request ≡ ok response
  pub status_ok : response.status ≡ 200
  pub marked : contains_text (take 1024 response.body) body_marker ≡ true

check_response-is_ok :
    (r : Result) (resp : Response)
    → r.is_ok ≡ false
    → ((check_response r resp).is_ok ≡ true)
      ↔ ((resp.status ≡ 200) × (contains_text (take 1024 resp.body) body_marker ≡ true))
unfolding check_response
check_response-is_ok r resp not_yet = (λ y. ground (arith, y), λ h. ground (arith, h.0, h.1))

module _ (c : Client) where
  abbrev requested : Time → Result
  requested start = record { timestamp = start; latency = c.elapsed; is_ok = false; error = [] }

  probe-Served :
      (start : Time) (target : Target)
      → (probe c start target).is_ok ≡ true
      → Served c target.https_url
  unfolding probe
  probe-Served start target y = elim (Fallible-cases (c.new_get target.https_url)) [
    | inl (e, p) ↦ ground (arith, p)
    | inr (req, p) ↦ elim (Fallible-cases (c.send req)) [
      | inl (e, q) ↦ ground (arith, p, q)
      | inr (resp, q) ↦
          let r = requested start in
          let (status_ok, marked) =
            (check_response-is_ok r resp refl).0 (ground (arith, p, q, y)) in
          record {
            request = req;
            response = resp;
            made = p;
            sent = q;
            status_ok = status_ok;
            marked = marked;
          }
    ]
  ]

  Served-probe :
      (start : Time) (target : Target)
      → Served c target.https_url
      → (probe c start target).is_ok ≡ true
  unfolding probe
  Served-probe start target s =
      rw (probe, s.made, s.sent)
        ((check_response-is_ok (requested start) s.response refl).1 (s.status_ok, s.marked))

  -- A probe succeeds exactly when its request could be made and sent, and the response had the
  -- status 200 and the marker in its first 1024 bytes.
  pub probe-is_ok :
      (start : Time) (target : Target)
      → ((probe c start target).is_ok ≡ true) ↔ Served c target.https_url
  probe-is_ok start target = (probe-Served start target, Served-probe start target)

marked_page :
    (version : Text) (r : Request) (now : Time)
    → r.path ≡ codes "/probe"
    → ((probe_handler version r now).status ≡ 200)
      × (contains_text (take 1024 (probe_handler version r now).body) body_marker ≡ true)
unfolding probe_handler contains_text has_prefix nat_eq text_eq
marked_page version r now p = rw p (refl, refl)

module _ (h : MacScheme) (b64 : Base64) (static : Text → Option Text) where
  new_mux-probe :
      (version : Text) (d : Deps) (r : Request) (now : Time)
      → r.path ≡ codes "/probe"
      → ((new_mux h b64 static version d r now).status ≡ (probe_handler version r now).status)
        × ((new_mux h b64 static version d r now).body ≡ (probe_handler version r now).body)
  unfolding new_mux route text_eq
  new_mux-probe version d r now p = rw (new_mux, route, p) (refl, refl)

  -- The HTTPS probe of a node whose URL leads to `/probe` behind the routes of its UI succeeds,
  -- whatever the method, the cookie, the sessions and the version, so without a login.
  pub probe-new_mux :
      (c : Client) (start : Time) (target : Target) (req : c.Request) (version : Text) (d : Deps)
      (r : Request) (now : Time)
      → c.new_get target.https_url ≡ ok req
      → c.send req ≡ ok (new_mux h b64 static version d r now)
      → r.path ≡ codes "/probe"
      → (probe c start target).is_ok ≡ true
  probe-new_mux c start target req version d r now made sent p =
      let (status_ok, marked) = marked_page version r now p in
      let (same_status, same_body) = new_mux-probe version d r now p in
      (probe-is_ok c start target).1 (record {
        request = req;
        response = new_mux h b64 static version d r now;
        made = made;
        sent = sent;
        status_ok = same_status ∙ status_ok;
        marked = rw same_body marked;
      })
