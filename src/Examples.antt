-- ===== src/Examples.antt =====
-- Concrete tables and a concrete service, with the tests and the instances of the theorems in the
-- modules below.
mod Identities
mod Stores
mod Enrollments
mod Renewals
mod Assertions
mod Exchanges
mod Fleets
mod Agents
mod Admins
use specification_enhancemen.Prelude.{
  ℕ, ◌*◌, String, ◌<>◌, ◌==◌, true, false, Option, none, some, List, [], ◌∷◌, if◌then◌else◌, eqb,
  length,
}
use specification_enhancemen.Instant.{Instant, second}
use specification_enhancemen.Platform.{Platform, Certificate, Csr, ecdsa, ecdsa_with_sha256}
use specification_enhancemen.Store.{Ldi, LdiStatus, EsiBinding, bound, IssuedSvid, TokenStatus, Db}
use specification_enhancemen.Identity.{
  Service, StaticPolicy, Call, VerifiedBootstrap, operator_tickets,
}

abbrev pub at : ℕ → Instant
at n = n * second

-- A stand-in for the certificates: the DER is a name, the key a part of it.
abbrev pub certificate : String → String → String → Certificate
certificate der serial key = record {
  raw = der;
  serial_upper_hex = serial;
  not_before = at 100;
  not_after = at 900;
  public_key = key;
  key_kind = ecdsa true;
  uris = [];
}

abbrev pub parse : String → Option Certificate
parse der =
    if der == "leaf-a"
    then some (certificate "leaf-a" "A1" "key-a")
    else if der == "leaf-b"
    then some (certificate "leaf-b" "B2" "key-b")
    else none

-- The 16 bytes of a token secret
abbrev pub secret_1 : List ℕ
secret_1 = 1 ∷ 2 ∷ 3 ∷ 4 ∷ 5 ∷ 6 ∷ 7 ∷ 8 ∷ 9 ∷ 10 ∷ 11 ∷ 12 ∷ 13 ∷ 14 ∷ 15 ∷ 16 ∷ []

abbrev pub platform : Platform
platform = record {
  sha256 = λ s. "sha256:" <> s;
  hex = λ s. s;
  parse_certificate = parse;
  parse_certificate_request = λ der.
      if der == "csr-b"
      then some (record {
        public_key = "key-b";
        key_kind = ecdsa true;
        signature_algorithm = ecdsa_with_sha256;
        signature_valid = true;
      })
      else none;
  marshal_public_key = λ k. some k;
  decode_base64 = λ s. some s;
  decode_raw_url = λ s. if s == "secret-1" then some secret_1 else none;
  decode_raw_url_text =
      λ s. if s == "id-1" then some "spiffe://margo.example.com/margo/device/uuid-1" else none;
  encode_raw_url = λ _. "secret-1";
  encode_pem = λ der. "pem:" <> der;
  sha256_bytes = λ bs. if eqb (length bs) 16 then "hash-1" else "hash-2";
}

abbrev pub service : Service
service = record {
  platform = platform;
  policy = record { new_ldi = true; key_rotation = true };
  replacement = operator_tickets;
  trust_domain = "margo.example.com";
  svid_ttl = at 800;
}

abbrev pub strict_service : Service
strict_service = record service { policy = record { new_ldi = true; key_rotation = false } }

-- A call at which the issuer answers with the leaf b
abbrev pub call : Call
call = record {
  now = at 200;
  fresh_uuid = "uuid-2";
  issue = λ _ _ _. some ("leaf-b" ∷ "intermediate" ∷ [], at 1000);
}

abbrev pub csr_b : Csr
csr_b = record { der = "csr-b"; public_key = "key-b"; algorithm = "ES256" }

abbrev pub factory_device : VerifiedBootstrap
factory_device = record { method = "factory"; esi = "esi-1" }

abbrev pub spiffe_1 : String
spiffe_1 = "spiffe://margo.example.com/margo/device/uuid-1"

abbrev pub ldi_1 : Ldi
ldi_1 = record {
  uuid = "uuid-1";
  spiffe_id = spiffe_1;
  status = LdiStatus.active;
  created_at = at 50;
  updated_at = at 50;
}

abbrev pub binding_1 : EsiBinding
binding_1 = record {
  esi = "esi-1";
  ldi_uuid = "uuid-1";
  method = "factory";
  status = bound;
  bound_at = at 50;
  retired_at = none;
}

abbrev pub svid_a : IssuedSvid
svid_a = record {
  serial_hex = "A1";
  fingerprint_hex = "sha256:leaf-a";
  spiffe_id = spiffe_1;
  ldi_uuid = "uuid-1";
  method = "factory";
  issued_at = at 100;
  not_before = at 100;
  not_after = at 900;
  revoked = false;
  revoked_at = none;
  leaf_der = "leaf-a";
}

abbrev pub empty_db : Db
empty_db = record {
  ldis = [];
  esi_bindings = [];
  enrollment_tokens = [];
  enrollment_token_outcomes = [];
  jwt_replay = [];
  replacement_tickets = [];
  renewal_events = [];
  issued_svids = [];
  revoked_svids = [];
  issued_jwt_svids = [];
}

-- One device with one outstanding SVID
abbrev pub one_device : Db
one_device = record empty_db {
  ldis = ldi_1 ∷ [];
  esi_bindings = binding_1 ∷ [];
  issued_svids = svid_a ∷ [];
}

-- One token that nobody has used
abbrev pub one_token : Db
one_token = record empty_db {
  enrollment_tokens =
      record {
        token_id = "token-1";
        secret_hash = "hash-1";
        status = TokenStatus.active;
        expires_at = at 300;
        created_at = at 100;
        consumed_at = none;
      }
      ∷ [];
}
