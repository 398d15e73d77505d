-- ===== src/Pki/RoundTrip.antt =====
-- Material that was written as PEM is read back.
use mesh_checker.Base.{
  ◌≡◌, refl, sym, ap, ◌∙◌, subst, true, none, some, [], ◌∷◌, Text, text_eq, ok, ok_injective, arith,
  Fallible-cases, inl, inr,
}
use mesh_checker.Probe.{Time, Duration}
use mesh_checker.Pki.{
  Certificate, Crypto, IsCrypto, Material, Random, as_random, new_serial, ca_template, generate_ca,
  encode, decode, load_cert_only, cert_sign, digital_signature, cert_kind, key_kind,
}
use mesh_checker.Pki.Issue.{Certified, certify-Certified}

module _ (x : Crypto) where
  -- What a CA's certificate says: it may sign others, and has the name that was asked for.
  pub record SignsOthers (common_name : Text) (c : Certificate x.Ip) : Type 0 where
    pub name : c.common_name ≡ common_name
    pub constrained : c.basic_constraints_valid ≡ true
    pub is_ca : c.is_ca ≡ true
    pub usage : c.key_usage ≡ cert_sign ∷ digital_signature ∷ []

  -- A CA that was made, by itself.
  pub record CaMade (common_name : Text) (m : Material x) : Type 0 where
    pub tmpl : Certificate x.Ip
    pub priv : x.PrivateKey
    pub contents : SignsOthers common_name tmpl
    pub certified : Certified x tmpl tmpl priv priv m

  pub generate_ca-CaMade :
      IsCrypto x
      → (r : Random x) (now later : Time) (common_name : Text) (lifetime : Duration)
        {m : Material x}
      → generate_ca x r now later common_name lifetime ≡ ok m
      → CaMade common_name m
  unfolding generate_ca
  generate_ca-CaMade is r now later common_name lifetime {m} h =
      elim (Fallible-cases (as_random r.generate_key)) [
        | inl (e, q) ↦ absurd (ground (arith, q))
        | inr ((key, priv), q) ↦ elim (Fallible-cases (new_serial x r)) [
          | inl (e, s) ↦ absurd (ground (arith, q, s))
          | inr (serial, s) ↦
              let tmpl = ca_template x common_name serial now later lifetime in
              record {
                tmpl = tmpl;
                priv = priv;
                contents = record { name = refl; constrained = refl; is_ca = refl; usage = refl };
                certified =
                    certify-Certified x is tmpl tmpl key priv priv
                      (sym (rw (generate_ca, q, s) refl) ∙ h);
              }
        ]
      ]

  pub CaMade-SignsOthers :
      {common_name : Text} {m : Material x} → CaMade common_name m → SignsOthers common_name m.cert
  CaMade-SignsOthers made =
      let kept = made.certified.issued in
      record {
        name = kept.common_name ∙ made.contents.name;
        constrained = kept.basic_constraints_valid ∙ made.contents.constrained;
        is_ca = ground (arith, kept.is_ca, made.contents.is_ca, made.contents.constrained);
        usage = kept.key_usage ∙ made.contents.usage;
      }

  load_cert_only-pem :
      IsCrypto x
      → (m : Material x) → x.parse_certificate m.der_cert ≡ ok m.cert
      → load_cert_only x (x.pem_encode cert_kind m.der_cert) ≡ ok (record m { private_key = none })
  unfolding load_cert_only decode
  load_cert_only-pem is m parsed =
      rw (load_cert_only, decode, is.pem_decode-pem_encode cert_kind m.der_cert, parsed) refl

  -- What was encoded: the two blocks.
  encode-pem :
      (m : Material x) (priv : x.PrivateKey) {c k : Text}
      → m.private_key ≡ some priv
      → encode x m ≡ ok (c, k)
      → (b : Text) × (x.marshal_key (some priv) ≡ ok b)
        × (c ≡ x.pem_encode cert_kind m.der_cert)
        × (k ≡ x.pem_encode key_kind b)
  unfolding encode
  encode-pem m priv {c} {k} own h = elim (Fallible-cases (x.marshal_key m.private_key)) [
    | inl (e, p) ↦ absurd (ground (arith, p))
    | inr (b, p) ↦
        let same = ok_injective _ (c, k) (sym (rw (encode, p) refl) ∙ h) in
        (
          b,
          subst (λ o. x.marshal_key o ≡ ok b) own p,
          sym (ap (λ (q : Text × Text). q.0) same),
          sym (ap (λ (q : Text × Text). q.1) same),
        )
  ]

  -- Material that was made here, encoded and decoded again is what it was; without the key it is the
  -- same but for the key.
  pub decode-encode :
      IsCrypto x
      → {tmpl parent : Certificate x.Ip} {signer priv : x.PrivateKey} (m : Material x) {c k : Text}
      → Certified x tmpl parent signer priv m
      → encode x m ≡ ok (c, k)
      → (decode x c (some k) ≡ ok m) × (load_cert_only x c ≡ ok (record m { private_key = none }))
  unfolding decode
  decode-encode is {priv = priv} m made h =
      let (b, marshalled, cert_pem, key_pem) = encode-pem m priv made.own_key h in
      (
        rw
            (
              decode,
              cert_pem,
              key_pem,
              is.pem_decode-pem_encode cert_kind m.der_cert,
              made.parsed,
              is.pem_decode-pem_encode key_kind b,
              is.parse_key-marshal_key priv marshalled,
            )
            (ap (λ o. ok (record m { private_key = o })) (sym made.own_key)),
        rw cert_pem (load_cert_only-pem is m made.parsed),
      )
