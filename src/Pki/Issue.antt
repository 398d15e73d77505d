-- ===== src/Pki/Issue.antt =====
-- What stands in a certificate that was made.
use mesh_checker.Base.{
  ◌≡◌, refl, sym, subst, ok_injective, ap, ap₂, false, ◌∙◌, Option, none, some, List, [], ◌∷◌, ◌++◌,
  append_assoc, append-nil, Text, ok, arith, Fallible-cases, Option-cases, inl, inr,
}
use mesh_checker.Probe.{Time, Duration}
use mesh_checker.Pki.{
  Certificate, Crypto, IsCrypto, IsIssued, Material, Random, new_serial, certify, signing_cert,
  as_random, host_template, add_sans, generate_host_cert, server_auth, client_auth,
}

module _ (x : Crypto) where
  -- Those of the names that are addresses, and those that are none.
  abbrev pub addresses : List Text → List x.Ip
  addresses [] = []
  addresses (s ∷ sans) = elim (x.parse_ip s) [
    | some ip ↦ ip ∷ addresses sans
    | none ↦ addresses sans
  ]

  abbrev pub names : List Text → List Text
  names [] = []
  names (s ∷ sans) = elim (x.parse_ip s) [ some ip ↦ names sans | none ↦ s ∷ names sans ]

  abbrev with_sans : Certificate x.Ip → List x.Ip → List Text → Certificate x.Ip
  with_sans tmpl ips dns = record tmpl { ip_addresses = ips; dns_names = dns }

  add_sans-with_sans :
      (tmpl : Certificate x.Ip) (ips : List x.Ip) (dns sans : List Text)
      → add_sans x (with_sans tmpl ips dns) sans
        ≡ with_sans tmpl (ips ++ addresses sans) (dns ++ names sans)
  unfolding add_sans
  add_sans-with_sans tmpl ips dns [] =
      ap₂ (with_sans tmpl) (sym (append-nil ips)) (sym (append-nil dns))
  add_sans-with_sans tmpl ips dns (s ∷ sans) = elim (Option-cases (x.parse_ip s)) [
    | inl p ↦
        rw (add_sans, addresses, names, p)
          (add_sans-with_sans tmpl ips (dns ++ (s ∷ [])) sans
            ∙ ap (with_sans tmpl (ips ++ addresses sans)) (append_assoc dns (s ∷ []) (names sans)))
    | inr (ip, p) ↦
        rw (add_sans, addresses, names, p)
          (add_sans-with_sans tmpl (ips ++ (ip ∷ [])) dns sans
            ∙ ap (λ l. with_sans tmpl l (dns ++ names sans))
                (append_assoc ips (ip ∷ []) (addresses sans)))
  ]

  -- A material that was made: its key, its certificate as it is parsed, its contents, and who issued
  -- and signed it.
  pub record Certified (tmpl parent : Certificate x.Ip) (signer priv : x.PrivateKey)
      (m : Material x) : Type 0 where
    pub own_key : m.private_key ≡ some priv
    pub parsed : x.parse_certificate m.der_cert ≡ ok m.cert
    pub issued : IsIssued tmpl m.cert
    pub issuer : x.issuer m.der_cert ≡ some parent.common_name
    pub signed : x.SignedBy signer m.der_cert

  pub certify-Certified :
      IsCrypto x
      → (tmpl parent : Certificate x.Ip) (key : x.PublicKey) (signer priv : x.PrivateKey)
        {m : Material x}
      → certify x tmpl parent key (some signer) priv ≡ ok m
      → Certified tmpl parent signer priv m
  unfolding certify
  certify-Certified is tmpl parent key signer priv {m} h =
      elim (Fallible-cases (x.create_certificate tmpl parent key (some signer))) [
        | inl (e, p) ↦ absurd (ground (arith, p))
        | inr (der, p) ↦ elim (Fallible-cases (x.parse_certificate der)) [
          | inl (e, q) ↦ absurd (ground (arith, p, q))
          | inr (cert, q) ↦
              let same : record { cert = cert; der_cert = der; private_key = some priv } ≡ m =
                ok_injective _ m (sym (rw (certify, p, q) refl) ∙ h) in
              subst (Certified tmpl parent signer priv) same (record {
                own_key = refl;
                parsed = q;
                issued = is.parse_certificate-create_certificate tmpl parent key (some signer) p q;
                issuer = is.issuer-create_certificate tmpl parent key (some signer) p;
                signed = is.signed tmpl parent key signer p;
              })
        ]
      ]

  -- What a host certificate says.
  pub record Names (host_name : Text) (sans : List Text) (c : Certificate x.Ip) : Type 0 where
    pub common_name : c.common_name ≡ host_name
    pub no_ca : c.is_ca ≡ false
    pub both_sides : c.ext_key_usage ≡ server_auth ∷ client_auth ∷ []
    pub ip_addresses : c.ip_addresses ≡ addresses sans
    pub dns_names : c.dns_names ≡ names sans

  -- The template that a host's certificate was made from, and the CA that signed it.
  pub record HostMade (ca : Option (Material x)) (host_name : Text) (sans : List Text)
      (m : Material x) : Type 0 where
    pub parent : Material x
    pub given_ca : ca ≡ some parent
    pub signer : x.PrivateKey
    pub parent_key : parent.private_key ≡ some signer
    pub tmpl : Certificate x.Ip
    pub priv : x.PrivateKey
    pub contents : Names host_name sans tmpl
    pub certified : Certified tmpl parent.cert signer priv m

  signing_cert-key :
      (ca : Option (Material x)) {parent : Material x}
      → signing_cert x ca ≡ ok parent
      → (k : x.PrivateKey) × (ca ≡ some parent) × (parent.private_key ≡ some k)
  signing_cert-key none h = cc
  signing_cert-key (some ca) {parent} h = elim (Option-cases ca.private_key) [
    | inl e ↦ absurd (ground (arith, e, h))
    | inr (k, e) ↦
        let same : ca ≡ parent = ok_injective ca parent (rw e at h) in
        (k, ap some same, subst (λ (m : Material x). m.private_key ≡ some k) same e)
  ]

  pub generate_host_cert-HostMade :
      IsCrypto x
      → (r : Random x) (now later : Time) (ca : Option (Material x)) (host_name : Text)
        (sans : List Text) (lifetime : Duration) {m : Material x}
      → generate_host_cert x r now later ca host_name sans lifetime ≡ ok m
      → HostMade ca host_name sans m
  unfolding generate_host_cert
  generate_host_cert-HostMade is r now later ca host_name sans lifetime {m} h =
      elim (Fallible-cases (signing_cert x ca)) [
        | inl (e, p) ↦ absurd (ground (arith, p))
        | inr (parent, p) ↦ elim (Fallible-cases (as_random r.generate_key)) [
          | inl (e, q) ↦ absurd (ground (arith, p, q))
          | inr ((key, priv), q) ↦ elim (Fallible-cases (new_serial x r)) [
            | inl (e, s) ↦ absurd (ground (arith, p, q, s))
            | inr (serial, s) ↦
                let (signer, given_ca, parent_key) = signing_cert-key ca p in
                let tmpl = host_template x host_name serial now later lifetime in
                let whole = add_sans-with_sans tmpl [] [] sans in
                record {
                  parent = parent;
                  given_ca = given_ca;
                  signer = signer;
                  parent_key = parent_key;
                  tmpl = add_sans x tmpl sans;
                  priv = priv;
                  contents = rw whole (record {
                    common_name = refl;
                    no_ca = refl;
                    both_sides = refl;
                    ip_addresses = refl;
                    dns_names = refl;
                  });
                  certified =
                      certify-Certified is (add_sans x tmpl sans) parent.cert key signer priv
                        (sym (rw (generate_host_cert, p, q, s, parent_key) refl) ∙ h);
                }
          ]
        ]
      ]

  -- A host certificate that was made names the host, is for servers and clients and no CA, and
  -- carries every additional name, in order: those that parse as addresses among its addresses, and
  -- the others among its DNS names.
  pub generate_host_cert-Names :
      IsCrypto x
      → (r : Random x) (now later : Time) (ca : Option (Material x)) (host_name : Text)
        (sans : List Text) (lifetime : Duration) {m : Material x}
      → generate_host_cert x r now later ca host_name sans lifetime ≡ ok m
      → Names host_name sans m.cert
  generate_host_cert-Names is r now later ca host_name sans lifetime h =
      let made = generate_host_cert-HostMade is r now later ca host_name sans lifetime h in
      let kept = made.certified.issued in
      record {
        common_name = kept.common_name ∙ made.contents.common_name;
        no_ca = ground (arith, kept.is_ca, made.contents.no_ca);
        both_sides = kept.ext_key_usage ∙ made.contents.both_sides;
        ip_addresses = kept.ip_addresses ∙ made.contents.ip_addresses;
        dns_names = kept.dns_names ∙ made.contents.dns_names;
      }
