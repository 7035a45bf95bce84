-- ===== src/Handshake/Fixture.antt =====
-- handshake.rs: a concrete device for tests, with a library that stores records as they are.
use mesui.Prelude.{
  Option, false, failed, ◌==◌, ◌&&◌, bytes_eq, if◌then◌else◌, Bool, true, none, some, [], ◌∷◌,
  Bytes, done,
}
use mesui.Envelope.{Codec}
use mesui.Signal.Engine.{ProtocolAddress, succeeded, SqlSignalStore}
use mesui.Handshake.Library.{Moment, whisper, PreKeyBundle, Libsignal}
use mesui.Handshake.Device.{Device}
use mesui.Handshake.Wire.{WirePreKeyBundle, BundleAccess}
use mesui.Handshake.Bundle.{id_of, key_of, wire_of}

abbrev pub lib : Libsignal Bytes Bytes
lib = record {
  display = λ e. "error";
  device_id_new = λ n. done n;
  decode = λ b. succeeded b;
  decode_pair = λ b. succeeded b;
  identity_key_of = λ b. b;
  generate_identity = λ m. m.seed;
  generate_key = λ m. record { public_key = m.seed; private_key = m.seed };
  generate_kyber_key = λ m. record { public_key = m.seed; private_key = m.seed };
  calculate_signature = λ pair key m. succeeded key;
  new_pre_key = λ id key. key.private_key;
  new_signed_pre_key = λ id m key sig. key.private_key;
  codec = record { serialize = λ r. succeeded r; deserialize = λ b. succeeded b };
  bundle_new = λ b. succeeded b;
  message_type = λ m. whisper;
  serialize = λ m. m;
  read_pre_key_message = λ b. succeeded b;
  read_message = λ b. succeeded b;
  process_prekey_bundle = λ remote self bundle m s. (s, succeeded tt);
  message_encrypt = λ text remote self m s. (s, succeeded text);
  message_decrypt = λ cm remote self m s. (s, succeeded cm);
}

abbrev pub access : BundleAccess
access = record {
  registration_id = λ b. succeeded b.registration_id;
  device_id = λ b. succeeded b.device_id;
  pre_key_id = λ b. succeeded (id_of b.pre_key);
  pre_key_public = λ b. succeeded (key_of b.pre_key);
  signed_pre_key_id = λ b. succeeded b.signed_pre_key_id;
  signed_pre_key_public = λ b. succeeded b.signed_pre_key_public;
  signed_pre_key_signature = λ b. succeeded b.signed_pre_key_signature;
  kyber_pre_key_id = λ b. succeeded b.kyber_pre_key_id;
  kyber_pre_key_public = λ b. succeeded b.kyber_pre_key_public;
  kyber_pre_key_signature = λ b. succeeded b.kyber_pre_key_signature;
  identity_key = λ b. succeeded b.identity_key;
  read_public_key = λ b. succeeded b;
  read_kyber_key = λ b. succeeded b;
}

abbrev pub store : SqlSignalStore
store = record {
  identity_pair = none;
  trusted_identities = [];
  sessions = [];
  pre_keys = (4, 1 ∷ []) ∷ [];
  signed_pre_keys = [];
  kyber_pre_keys = [];
  faults = [];
}

abbrev pub moment : Moment
moment = record { now = 1_000; seed = 7 ∷ [] }

abbrev pub alice : ProtocolAddress
alice = record { name = "alice"; device_id = 1 }

abbrev pub bob : ProtocolAddress
bob = record { name = "bob"; device_id = 1 }

abbrev pub device : Device
device = record { address = alice; store = store }

abbrev pub bundle : PreKeyBundle
bundle = record {
  registration_id = 258;
  device_id = 1;
  pre_key = some (5, 1 ∷ []);
  signed_pre_key_id = 1;
  signed_pre_key_public = 2 ∷ [];
  signed_pre_key_signature = 3 ∷ [];
  kyber_pre_key_id = 1;
  kyber_pre_key_public = 4 ∷ [];
  kyber_pre_key_signature = 5 ∷ [];
  identity_key = 6 ∷ [];
}

-- A codec that writes the one record.
abbrev pub same_option : {A : Type 0} → (A → A → Bool) → Option A → Option A → Bool
same_option same none none = true
same_option same (some a) (some b) = same a b
same_option same none (some b) = false
same_option same (some a) none = false

abbrev pub same_wire : WirePreKeyBundle → WirePreKeyBundle → Bool
same_wire v w =
    (v.registration_id == w.registration_id)
    && (v.device_id == w.device_id)
    && same_option (λ a b. a == b) v.pre_key_id w.pre_key_id
    && same_option bytes_eq v.pre_key_public w.pre_key_public
    && (v.signed_pre_key_id == w.signed_pre_key_id)
    && bytes_eq v.signed_pre_key_public w.signed_pre_key_public
    && bytes_eq v.signed_pre_key_signature w.signed_pre_key_signature
    && (v.kyber_pre_key_id == w.kyber_pre_key_id)
    && bytes_eq v.kyber_pre_key_public w.kyber_pre_key_public
    && bytes_eq v.kyber_pre_key_signature w.kyber_pre_key_signature
    && bytes_eq v.identity_key w.identity_key

abbrev pub codec : Codec WirePreKeyBundle
codec = record {
  into_writer = λ w. if same_wire w (wire_of bundle) then done (1 ∷ []) else failed "full";
  from_reader = λ b. done (wire_of bundle);
}
