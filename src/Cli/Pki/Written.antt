-- ===== src/Cli/Pki/Written.antt =====
-- What stands in the files after `pki init` and `pki cert`.
use mesh_checker.Base.{
  ◌≡◌, ◌≢◌, refl, sym, ap, ◌∙◌, Option, none, some, List, Text, Fallible, ok, err, ok_injective,
  arith, Fallible-cases, inl, inr,
}
use mesh_checker.Probe.{Time, Duration}
use mesh_checker.Pki.{PkiError, Crypto, IsCrypto, Material, Random, generate_ca, encode, decode}
use mesh_checker.Pki.RoundTrip.{
  CaMade, SignsOthers, CaMade-SignsOthers, generate_ca-CaMade, decode-encode,
}
use mesh_checker.Cli.Files.{Files, IsFiles}
use mesh_checker.Cli.Pki.{as_pki, InitArgs, CertArgs, init_args, make_ca, run_pki_init}
use mesh_checker.Cli.Pki.Pair.{HoldsPair, write_pair-HoldsPair}

as_pki-ok : {A : Type 0} (v : Fallible PkiError A) {a : A} → as_pki v ≡ ok a → v ≡ ok a
as_pki-ok (ok b) {a} h = ap ok (ok_injective b a h)
as_pki-ok (err e) h = cc

module _ (x : Crypto) where
  -- The CA that the two texts of `pki init` are.
  make_ca-CaMade :
      IsCrypto x
      → (r : Random x) (now later : Time) (a : InitArgs) {pems : Text × Text}
      → make_ca x r now later a ≡ ok pems
      → (ca : Material x) × CaMade x a.common_name ca × (decode x pems.0 (some pems.1) ≡ ok ca)
  unfolding make_ca
  make_ca-CaMade is r now later a {pems} h =
      elim (Fallible-cases (generate_ca x r now later a.common_name a.lifetime)) [
        | inl (e, p) ↦ absurd (ground (arith, p))
        | inr (ca, p) ↦
            let made = generate_ca-CaMade x is r now later a.common_name a.lifetime p in
            let encoded : encode x ca ≡ ok pems =
              as_pki-ok (encode x ca) (sym (rw (make_ca, p) refl) ∙ h) in
            (ca, made, (decode-encode x is ca made.certified encoded).0)
      ]

  -- A certificate that the CA in two PEM texts has issued and signed.
  pub record FromCa (ca_cert_pem ca_key_pem der : Text) : Type 0 where
    pub ca : Material x
    pub key : x.PrivateKey
    pub read : decode x ca_cert_pem (some ca_key_pem) ≡ ok ca
    pub ca_key : ca.private_key ≡ some key
    pub issuer : x.issuer der ≡ some ca.cert.common_name
    pub signed : x.SignedBy key der

  -- The same of the CA in the two files that the command was given.
  pub record FromCaFiles (d : Files) (s : d.State) (a : CertArgs) (der : Text) : Type 0 where
    pub cert_pem : Text
    pub key_pem : Text
    pub cert_read : d.content s a.ca_cert ≡ some cert_pem
    pub key_read : d.content s a.ca_key ≡ some key_pem
    pub from_ca : FromCa cert_pem key_pem der

  -- A certificate that was issued and signed by itself.
  pub record SelfSigned (m : Material x) : Type 0 where
    pub key : x.PrivateKey
    pub own_key : m.private_key ≡ some key
    pub issuer : x.issuer m.der_cert ≡ some m.cert.common_name
    pub signed : x.SignedBy key m.der_cert

  -- A `pki init` that ends without an error leaves a CA that can be read again: at the two paths,
  -- if they differ, the PEM blocks of a certificate with the common name, valid basic constraints of
  -- a CA and the usage of signing certificates, issued and signed by itself, readable for all, and of
  -- its key, for the owner alone.
  pub run_pki_init-HoldsPair :
      (d : Files) (parse_duration : Text → Option Duration)
      → IsFiles d
      → IsCrypto x
      → (s : d.State) (r : Random x) (now later : Time) (args : List Text) (a : InitArgs)
      → init_args parse_duration args ≡ ok a
      → a.ca_cert ≢ a.ca_key
      → (run_pki_init x d parse_duration s r now later args).1 ≡ none
      → (pems : Text × Text) × (ca : Material x) × SignsOthers x a.common_name ca.cert
        × SelfSigned ca
        × (decode x pems.0 (some pems.1) ≡ ok ca)
        × HoldsPair d (run_pki_init x d parse_duration s r now later args).0 a.ca_cert a.ca_key pems
  unfolding run_pki_init
  run_pki_init-HoldsPair d parse_duration is is_x s r now later args a h apart done =
      elim (Fallible-cases (make_ca x r now later a)) [
        | inl (e, p) ↦ absurd (ground (arith, h, p))
        | inr (pems, p) ↦
            let (ca, made, read) = make_ca-CaMade is_x r now later a p in
            (
              pems,
              ca,
              CaMade-SignsOthers x made,
              record {
                key = made.priv;
                own_key = made.certified.own_key;
                issuer = made.certified.issuer ∙ ap some (sym made.certified.issued.common_name);
                signed = made.certified.signed;
              },
              read,
              rw (run_pki_init, h, p)
                  (write_pair-HoldsPair d is s a.ca_cert a.ca_key pems apart
                    (rw (run_pki_init, h, p) at done)),
            )
      ]
