-- ===== src/Handshake/Bundle.antt =====
-- handshake.rs: a bundle that was sent over the wire is the bundle that was shown.
use mesui.Prelude.{
  ◌≡◌, refl, sym, ap, ◌∙◌, ◌>>=◌, ℕ, Option, none, some, Bytes, ok, Outcome, done, failed, map_err,
  cbor,
}
use mesui.Envelope.{Codec}
use mesui.Signal.Engine.{SignalResult, succeeded}
use mesui.Handshake.Library.{PreKeyBundle, Libsignal}
use mesui.Handshake.Wire.{
  WirePreKeyBundle, BundleAccess, to_wire_record, bundle_to_wire, bundle_from_wire, wire_pre_key,
}

abbrev pub id_of : Option (ℕ × Bytes) → Option ℕ
id_of none = none
id_of (some (id, key)) = some id

abbrev pub key_of : Option (ℕ × Bytes) → Option Bytes
key_of none = none
key_of (some (id, key)) = some key

abbrev pub Readable : (Bytes → SignalResult Bytes) → Option (ℕ × Bytes) → Type 0
Readable read none = Unit
Readable read (some (id, key)) = read key ≡ succeeded key

-- What the library does with a bundle: its getters give what it was made of, its keys are read back,
-- and it takes them.
pub record IsBundle {R M : Type 0} (lib : Libsignal R M) (access : BundleAccess) (b : PreKeyBundle)
    : Type 0 where
  pub registration_id : access.registration_id b ≡ succeeded b.registration_id
  pub device_id : access.device_id b ≡ succeeded b.device_id
  pub pre_key_id : access.pre_key_id b ≡ succeeded (id_of b.pre_key)
  pub pre_key_public : access.pre_key_public b ≡ succeeded (key_of b.pre_key)
  pub signed_pre_key_id : access.signed_pre_key_id b ≡ succeeded b.signed_pre_key_id
  pub signed_pre_key_public : access.signed_pre_key_public b ≡ succeeded b.signed_pre_key_public
  pub signed_pre_key_signature :
      access.signed_pre_key_signature b ≡ succeeded b.signed_pre_key_signature
  pub kyber_pre_key_id : access.kyber_pre_key_id b ≡ succeeded b.kyber_pre_key_id
  pub kyber_pre_key_public : access.kyber_pre_key_public b ≡ succeeded b.kyber_pre_key_public
  pub kyber_pre_key_signature :
      access.kyber_pre_key_signature b ≡ succeeded b.kyber_pre_key_signature
  pub identity_key : access.identity_key b ≡ succeeded b.identity_key
  pub new_device : lib.device_id_new b.device_id ≡ done b.device_id
  pub one_time_key : Readable access.read_public_key b.pre_key
  pub signed_key :
      access.read_public_key b.signed_pre_key_public ≡ succeeded b.signed_pre_key_public
  pub kyber_key : access.read_kyber_key b.kyber_pre_key_public ≡ succeeded b.kyber_pre_key_public
  pub own_key : lib.decode b.identity_key ≡ succeeded b.identity_key
  pub made : lib.bundle_new b ≡ succeeded b

-- The record on the wire, field by field.
abbrev pub wire_of : PreKeyBundle → WirePreKeyBundle
wire_of b = record {
  registration_id = b.registration_id;
  device_id = b.device_id;
  pre_key_id = id_of b.pre_key;
  pre_key_public = key_of b.pre_key;
  signed_pre_key_id = b.signed_pre_key_id;
  signed_pre_key_public = b.signed_pre_key_public;
  signed_pre_key_signature = b.signed_pre_key_signature;
  kyber_pre_key_id = b.kyber_pre_key_id;
  kyber_pre_key_public = b.kyber_pre_key_public;
  kyber_pre_key_signature = b.kyber_pre_key_signature;
  identity_key = b.identity_key;
}

module _ {R M : Type 0} (lib : Libsignal R M) (access : BundleAccess)
    (codec : Codec WirePreKeyBundle) where
  to_wire_record_lem :
      (b : PreKeyBundle)
      → IsBundle lib access b
      → to_wire_record lib access codec b ≡ ok (wire_of b)
  unfolding to_wire_record
  to_wire_record_lem b i = rw i.registration_id (
      rw i.device_id (
        rw i.pre_key_id (
          rw i.pre_key_public (
            rw i.signed_pre_key_id (
              rw i.signed_pre_key_public (
                rw i.signed_pre_key_signature (
                  rw i.kyber_pre_key_id (
                    rw i.kyber_pre_key_public
                      (rw i.kyber_pre_key_signature (rw i.identity_key refl))))))))))

  wire_pre_key_lem :
      (p : Option (ℕ × Bytes))
      → Readable access.read_public_key p
      → wire_pre_key lib access codec (id_of p) (key_of p) ≡ ok p
  unfolding wire_pre_key
  wire_pre_key_lem none r = refl
  wire_pre_key_lem (some (id, key)) r = rw r refl

  bundle_from_wire_lem :
      (b : PreKeyBundle) (bytes : Bytes)
      → IsBundle lib access b
      → codec.from_reader bytes ≡ done (wire_of b)
      → bundle_from_wire lib access codec bytes ≡ ok b
  unfolding bundle_from_wire
  bundle_from_wire_lem b bytes i r = rw r (
      rw (wire_pre_key_lem b.pre_key i.one_time_key)
        (rw i.new_device (rw i.signed_key (rw i.kyber_key (rw i.own_key (rw i.made refl))))))

  -- What `bundle_to_wire` wrote of a bundle, `bundle_from_wire` reads as that bundle, whatever its
  -- one-time prekey. The getters of the library give the parts that the bundle was made of, the library
  -- takes these again, and the CBOR reader reads what the writer wrote.
  pub bundle_from_wire-bundle_to_wire :
      (b : PreKeyBundle) (bytes : Bytes)
      → IsBundle lib access b
      → ((w : WirePreKeyBundle) (bytes : Bytes)
          → codec.into_writer w ≡ done bytes
          → codec.from_reader bytes ≡ done w)
      → bundle_to_wire lib access codec b ≡ ok bytes
      → bundle_from_wire lib access codec bytes ≡ ok b
  unfolding bundle_to_wire
  bundle_from_wire-bundle_to_wire b bytes i reads h = bundle_from_wire_lem b bytes i (
      reads (wire_of b) bytes (
        written (codec.into_writer (wire_of b)) (
          sym (ap (λ r. r >>= λ w. map_err cbor (codec.into_writer w)) (to_wire_record_lem b i))
          ∙ h)))
    where
      written : (o : Outcome Bytes) → map_err cbor o ≡ ok bytes → o ≡ done bytes
      written (done w) e = cc
      written (failed t) e = cc
