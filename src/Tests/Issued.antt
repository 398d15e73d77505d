-- ===== src/Tests/Issued.antt =====
-- The theorems on the CA and on the certificates of hosts, at concrete inputs: certificates as the
-- texts of their fields, and keys as numbers.
use mesh_checker.Base.{
  ℕ, zero, suc, ◌≡◌, refl, sym, ap, subst, ◌∙◌, Bool, true, false, Option, none, some, List, [],
  ◌∷◌, Text, text_eq, nat_eq, codes, ◌&&◌, ◌==◌, if◌then◌else◌, Fallible, ok, err, ok_injective,
}
use mesh_checker.Base.Int.{pos}
use mesh_checker.Pki.{
  KeyUsage, cert_sign, digital_signature, key_encipherment, ExtKeyUsage, server_auth, client_auth,
  Certificate, AnyKey, ed25519_key, Crypto, IsCrypto, IsIssued,
}
use mesh_checker.Tests.Codec.{Codec, text_codec, nat_codec, list_codec, pair_codec, as_codec, whole}
use mesh_checker.Tests.Instances.{whole-put}

abbrev pub to_usage : ℕ → KeyUsage
to_usage zero = cert_sign
to_usage (suc zero) = digital_signature
to_usage n = key_encipherment

abbrev pub of_usage : KeyUsage → ℕ
of_usage cert_sign = 0
of_usage digital_signature = 1
of_usage key_encipherment = 2

pub usage_same : (u : KeyUsage) → to_usage (of_usage u) ≡ u
usage_same cert_sign = refl
usage_same digital_signature = refl
usage_same key_encipherment = refl

abbrev pub usage_codec : Codec KeyUsage
usage_codec = as_codec nat_codec to_usage of_usage usage_same

abbrev pub to_ext : ℕ → ExtKeyUsage
to_ext zero = server_auth
to_ext n = client_auth

abbrev pub of_ext : ExtKeyUsage → ℕ
of_ext server_auth = 0
of_ext client_auth = 1

pub ext_same : (u : ExtKeyUsage) → to_ext (of_ext u) ≡ u
ext_same server_auth = refl
ext_same client_auth = refl

abbrev pub ext_codec : Codec ExtKeyUsage
ext_codec = as_codec nat_codec to_ext of_ext ext_same

abbrev pub to_flag : ℕ → Bool
to_flag zero = false
to_flag n = true

abbrev pub of_flag : Bool → ℕ
of_flag false = 0
of_flag true = 1

pub flag_same : (b : Bool) → to_flag (of_flag b) ≡ b
flag_same true = refl
flag_same false = refl

abbrev pub flag_codec : Codec Bool
flag_codec = as_codec nat_codec to_flag of_flag flag_same

-- The fields that a certificate keeps.
abbrev pub Fields : Type 0
Fields = Text × (Bool × (Bool × (List KeyUsage × (List ExtKeyUsage × (List Text × List Text)))))

abbrev pub fields_codec : Codec Fields
fields_codec = pair_codec text_codec (
    pair_codec flag_codec (
      pair_codec flag_codec (
        pair_codec (list_codec usage_codec) (
          pair_codec (list_codec ext_codec)
            (pair_codec (list_codec text_codec) (list_codec text_codec))))))

abbrev pub of_certificate : Certificate Text → Fields
of_certificate c = (
  c.common_name,
  (
    c.basic_constraints_valid,
    (
      c.basic_constraints_valid && c.is_ca,
      (c.key_usage, (c.ext_key_usage, (c.ip_addresses, c.dns_names))),
    ),
  ),
)

abbrev pub to_certificate : Fields → Certificate Text
to_certificate (n, (v, (a, (k, (e, (i, d)))))) = record {
  serial_number = 0;
  common_name = n;
  not_before = pos 0;
  not_after = pos 0;
  is_ca = a;
  key_usage = k;
  ext_key_usage = e;
  basic_constraints_valid = v;
  ip_addresses = i;
  dns_names = d;
}

abbrev pub map_ok : {A B : Type 0} → (A → B) → Fallible Text A → Fallible Text B
map_ok f (ok a) = ok (f a)
map_ok f (err e) = err e

-- A name that begins with a digit is an address.
abbrev pub ip_of : Text → Option Text
ip_of [] = none
ip_of (c ∷ s) = if c == b'1' then some (c ∷ s) else none

-- A certificate with its issuer and the key that signed it.
abbrev pub signed_codec : Codec (Fields × (Text × ℕ))
signed_codec = pair_codec fields_codec (pair_codec text_codec nat_codec)

-- The number of the key, and 0 for none.
abbrev pub key_number : Option ℕ → ℕ
key_number none = 0
key_number (some k) = k

abbrev pub der_of : Certificate Text → Certificate Text → Option ℕ → Text
der_of c parent signer =
    signed_codec.put (of_certificate c, (parent.common_name, key_number signer))

abbrev pub read_signed : Text → Fallible Text (Fields × (Text × ℕ))
read_signed b = whole (signed_codec.get b)

abbrev pub certificate_of : Fields × (Text × ℕ) → Certificate Text
certificate_of f = to_certificate f.0

abbrev pub issuer_of : Fallible Text (Fields × (Text × ℕ)) → Option Text
issuer_of (ok f) = some f.1.0
issuer_of (err e) = none

abbrev pub signer_of : Fallible Text (Fields × (Text × ℕ)) → Option ℕ
signer_of (ok f) = some f.1.1
signer_of (err e) = none

abbrev pub pem_codec : Codec (Text × Text)
pem_codec = pair_codec text_codec text_codec

abbrev pub some_ok : {A : Type 0} → Fallible Text A → Option A
some_ok (ok a) = some a
some_ok (err e) = none

abbrev pub key_text : Option ℕ → Fallible Text Text
key_text none = err (codes "no key")
key_text (some k) = ok (k ∷ [])

abbrev pub key_of : Text → Fallible Text (AnyKey ℕ)
key_of (k ∷ []) = ok (ed25519_key k)
key_of b = err (codes "no key")

abbrev pub plain_crypto : Crypto
plain_crypto = record {
  Ip = Text;
  PublicKey = ℕ;
  PrivateKey = ℕ;
  parse_ip = ip_of;
  create_certificate = λ template parent key signer. ok (der_of template parent signer);
  parse_certificate = λ b. map_ok certificate_of (read_signed b);
  marshal_key = key_text;
  parse_key = key_of;
  pem_encode = λ kind b. pem_codec.put (kind, b);
  pem_decode = λ b. some_ok (whole (pem_codec.get b));
  issuer = λ b. issuer_of (read_signed b);
  SignedBy = λ k b. signer_of (read_signed b) ≡ some k;
}

key_same : (k : ℕ) {b : Text} → key_text (some k) ≡ ok b → key_of b ≡ ok (ed25519_key k)
key_same k {b} h = subst (λ t. key_of t ≡ ok (ed25519_key k)) (ok_injective (k ∷ []) b h) refl

module _ (template parent : Certificate Text) (signer : Option ℕ) {b : Text}
    (h : Path (Fallible Text Text) (ok (der_of template parent signer)) (ok b)) where
  read_back : read_signed b ≡ ok (of_certificate template, (parent.common_name, key_number signer))
  read_back =
      ap read_signed (sym (ok_injective (der_of template parent signer) b h))
      ∙ whole-put signed_codec (of_certificate template, (parent.common_name, key_number signer))

  IsIssued-same :
      {c : Certificate Text} → map_ok certificate_of (read_signed b) ≡ ok c → IsIssued template c
  IsIssued-same {c} parsed =
      let again : to_certificate (of_certificate template) ≡ c =
        ok_injective (to_certificate (of_certificate template)) c
          (sym (ap (map_ok certificate_of) read_back) ∙ parsed) in
      subst (IsIssued template) again (record {
        common_name = refl;
        basic_constraints_valid = refl;
        is_ca = refl;
        key_usage = refl;
        ext_key_usage = refl;
        ip_addresses = refl;
        dns_names = refl;
      })

pub plain_crypto-IsCrypto : IsCrypto plain_crypto
plain_crypto-IsCrypto = record {
  pem_decode-pem_encode = λ kind b. ap some_ok (whole-put pem_codec (kind, b));
  parse_key-marshal_key = λ k h. key_same k h;
  parse_certificate-create_certificate =
      λ template parent key signer h parsed. IsIssued-same template parent signer h parsed;
  issuer-create_certificate =
      λ template parent key signer h. ap issuer_of (read_back template parent signer h);
  signed = λ template parent key signer h. ap signer_of (read_back template parent (some signer) h);
}
