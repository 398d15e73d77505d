-- ===== src/Pki.antt =====
-- internal/pkg/pki/pki.go: the CA and the certificates of the hosts. Packages crypto/x509,
-- crypto/ed25519 and encoding/pem are parameters, with what the code relies on as laws.
pub mod Issue
pub mod RoundTrip
use mesh_checker.Base.{
  ℕ, ◌^◌, ◌≡◌, Bool, true, false, Option, none, some, List, [], ◌∷◌, ◌++◌, Text, text_eq, codes,
  not, ◌&&◌, ◌==◌, if◌then◌else◌, Fallible, ok, err, ◌>>=◌,
}
use mesh_checker.Base.Int.{pos, ◌+ℤ◌, ◌-ℤ◌}
use mesh_checker.Probe.{Time, Duration}

-- Key usages and extended ones, by their names in package x509.
pub data KeyUsage : Type 0 where
  cert_sign digital_signature key_encipherment : KeyUsage

pub data ExtKeyUsage : Type 0 where
  server_auth client_auth : ExtKeyUsage

-- The fields of `x509.Certificate` that the code sets, `common_name` for its subject's.
pub record Certificate (Ip : Type 0) : Type 0 where
  pub serial_number : ℕ
  pub common_name : Text
  pub not_before : Time
  pub not_after : Time
  pub is_ca : Bool
  pub key_usage : List KeyUsage
  pub ext_key_usage : List ExtKeyUsage
  pub basic_constraints_valid : Bool
  pub ip_addresses : List Ip
  pub dns_names : List Text

-- A PKCS 8 key may be of another kind.
pub data AnyKey (PrivateKey : Type 0) : Type 0 where
  ed25519_key : PrivateKey → AnyKey PrivateKey
  other_key : AnyKey PrivateKey

-- `none` for a key is a nil one. `issuer` is the common name of the issuer that stands in the bytes
-- of a certificate, and `SignedBy` says that their signature was made with a key.
pub record Crypto : Type 1 where
  pub Ip : Type 0
  pub PublicKey : Type 0
  pub PrivateKey : Type 0
  pub parse_ip : Text → Option Ip
  pub create_certificate :
      Certificate Ip → Certificate Ip → PublicKey → Option PrivateKey → Fallible Text Text
  pub parse_certificate : Text → Fallible Text (Certificate Ip)
  pub marshal_key : Option PrivateKey → Fallible Text Text
  pub parse_key : Text → Fallible Text (AnyKey PrivateKey)
  pub pem_encode : Text → Text → Text
  pub pem_decode : Text → Option (Text × Text)
  pub issuer : Text → Option Text
  pub SignedBy : PrivateKey → Text → Type 0

-- What a certificate keeps of its template; its times are cut to seconds. `IsCA` is only written and
-- read with the basic constraints, where the template says that they are valid.
pub record IsIssued {Ip : Type 0} (template c : Certificate Ip) : Type 0 where
  pub common_name : c.common_name ≡ template.common_name
  pub basic_constraints_valid : c.basic_constraints_valid ≡ template.basic_constraints_valid
  pub is_ca : c.is_ca ≡ (template.basic_constraints_valid && template.is_ca)
  pub key_usage : c.key_usage ≡ template.key_usage
  pub ext_key_usage : c.ext_key_usage ≡ template.ext_key_usage
  pub ip_addresses : c.ip_addresses ≡ template.ip_addresses
  pub dns_names : c.dns_names ≡ template.dns_names

-- What these packages document: an encoding is decoded to what it was made from, and a certificate
-- has the contents of its template, the parent's subject as its issuer, and a signature by the key
-- that was given.
pub record IsCrypto (x : Crypto) : Type 0 where
  pub pem_decode-pem_encode : (kind b : Text) → x.pem_decode (x.pem_encode kind b) ≡ some (kind, b)
  pub parse_key-marshal_key :
      (k : x.PrivateKey) {b : Text}
      → x.marshal_key (some k) ≡ ok b
      → x.parse_key b ≡ ok (ed25519_key k)
  pub parse_certificate-create_certificate :
      (template parent : Certificate x.Ip) (key : x.PublicKey) (signer : Option x.PrivateKey)
      {b : Text} {c : Certificate x.Ip}
      → x.create_certificate template parent key signer ≡ ok b
      → x.parse_certificate b ≡ ok c
      → IsIssued template c
  pub issuer-create_certificate :
      (template parent : Certificate x.Ip) (key : x.PublicKey) (signer : Option x.PrivateKey)
      {b : Text}
      → x.create_certificate template parent key signer ≡ ok b
      → x.issuer b ≡ some parent.common_name
  pub signed :
      (template parent : Certificate x.Ip) (key : x.PublicKey) (signer : x.PrivateKey) {b : Text}
      → x.create_certificate template parent key (some signer) ≡ ok b
      → x.SignedBy signer b

pub data PkiError : Type 0 where
  random_error x509_error : Text → PkiError
  no_ca_key invalid_cert_pem invalid_key_pem not_ed25519 : PkiError

abbrev pub as_random : {A : Type 0} → Fallible Text A → Fallible PkiError A
as_random (ok a) = ok a
as_random (err e) = err (random_error e)

abbrev pub as_x509 : {A : Type 0} → Fallible Text A → Fallible PkiError A
as_x509 (ok a) = ok a
as_x509 (err e) = err (x509_error e)

-- One minute in nanoseconds.
abbrev pub minute : Duration
minute = pos 60000000000

abbrev pub cert_kind : Text
cert_kind = codes "CERTIFICATE"

abbrev pub key_kind : Text
key_kind = codes "PRIVATE KEY"

-- The bytes of a PEM block of the given kind.
abbrev pub block_of : Text → PkiError → Option (Text × Text) → Fallible PkiError Text
block_of kind e none = err e
block_of kind e (some (k, b)) = if not (k == kind) then err e else ok b

module _ (x : Crypto) where
  pub record Material : Type 0 where
    pub cert : Certificate x.Ip
    pub der_cert : Text
    pub private_key : Option x.PrivateKey

  -- What the random source gives to one call: a key pair, and a number below a bound.
  pub record Random : Type 0 where
    pub generate_key : Fallible Text (x.PublicKey × x.PrivateKey)
    pub int_below : ℕ → Fallible Text ℕ

  unfoldable pub new_serial : Random → Fallible PkiError ℕ
  new_serial r = as_random (r.int_below (2 ^ 128))

  abbrev pub ca_template : Text → ℕ → Time → Time → Duration → Certificate x.Ip
  ca_template common_name serial now later lifetime = record {
    serial_number = serial;
    common_name = common_name;
    not_before = now -ℤ minute;
    not_after = later +ℤ lifetime;
    is_ca = true;
    key_usage = cert_sign ∷ digital_signature ∷ [];
    ext_key_usage = [];
    basic_constraints_valid = true;
    ip_addresses = [];
    dns_names = [];
  }

  -- The end of both functions: the certificate is created, parsed, and put together with its key.
  unfoldable pub certify :
      Certificate x.Ip
      → Certificate x.Ip
      → x.PublicKey
      → Option x.PrivateKey
      → x.PrivateKey
      → Fallible PkiError Material
  certify tmpl parent key signer priv = do
    der ← as_x509 (x.create_certificate tmpl parent key signer)
    cert ← as_x509 (x.parse_certificate der)
    ok (record { cert = cert; der_cert = der; private_key = some priv })

  -- `now` and `later` are what the two calls of `time.Now` give.
  unfoldable pub generate_ca : Random → Time → Time → Text → Duration → Fallible PkiError Material
  generate_ca r now later common_name lifetime = do
    (key, priv) ← as_random r.generate_key
    serial ← new_serial r
    let tmpl = ca_template common_name serial now later lifetime
    certify tmpl tmpl key (some priv) priv

  abbrev pub host_template : Text → ℕ → Time → Time → Duration → Certificate x.Ip
  host_template host_name serial now later lifetime = record {
    serial_number = serial;
    common_name = host_name;
    not_before = now -ℤ minute;
    not_after = later +ℤ lifetime;
    is_ca = false;
    key_usage = digital_signature ∷ key_encipherment ∷ [];
    ext_key_usage = server_auth ∷ client_auth ∷ [];
    basic_constraints_valid = false;
    ip_addresses = [];
    dns_names = [];
  }

  -- The loop over the additional names, on the template so far.
  unfoldable pub add_sans : Certificate x.Ip → List Text → Certificate x.Ip
  add_sans tmpl [] = tmpl
  add_sans tmpl (s ∷ sans) = elim (x.parse_ip s) [
    | some ip ↦ add_sans (record tmpl { ip_addresses = tmpl.ip_addresses ++ (ip ∷ []) }) sans
    | none ↦ add_sans (record tmpl { dns_names = tmpl.dns_names ++ (s ∷ []) }) sans
  ]

  -- The signing CA has to be there, and to have its key.
  abbrev pub signing_cert : Option Material → Fallible PkiError Material
  signing_cert none = err no_ca_key
  signing_cert (some ca) = elim ca.private_key [ none ↦ err no_ca_key | some k ↦ ok ca ]

  unfoldable pub generate_host_cert :
      Random
      → Time
      → Time
      → Option Material
      → Text
      → List Text
      → Duration
      → Fallible PkiError Material
  generate_host_cert r now later ca host_name sans lifetime = do
    signer ← signing_cert ca
    (key, priv) ← as_random r.generate_key
    serial ← new_serial r
    let tmpl = add_sans (host_template host_name serial now later lifetime) sans
    certify tmpl signer.cert key signer.private_key priv

  unfoldable pub encode : Material → Fallible PkiError (Text × Text)
  encode m = do
    key_der ← as_x509 (x.marshal_key m.private_key)
    ok (x.pem_encode cert_kind m.der_cert, x.pem_encode key_kind key_der)

  abbrev pub as_ed25519 : AnyKey x.PrivateKey → Fallible PkiError x.PrivateKey
  as_ed25519 (ed25519_key k) = ok k
  as_ed25519 other_key = err not_ed25519

  -- The key of a material that has its certificate.
  abbrev pub with_key : Material → Option Text → Fallible PkiError Material
  with_key m none = ok m
  with_key m (some key_pem) = do
    b ← block_of key_kind invalid_key_pem (x.pem_decode key_pem)
    any ← as_x509 (x.parse_key b)
    k ← as_ed25519 any
    ok (record m { private_key = some k })

  -- `Decode`; `none` is a nil slice.
  unfoldable pub decode : Text → Option Text → Fallible PkiError Material
  unfolding text_eq
  decode cert_pem key_pem = do
    b ← block_of cert_kind invalid_cert_pem (x.pem_decode cert_pem)
    cert ← as_x509 (x.parse_certificate b)
    with_key (record { cert = cert; der_cert = b; private_key = none }) key_pem

  unfoldable pub load_cert_only : Text → Fallible PkiError Material
  load_cert_only cert_pem = decode cert_pem none
