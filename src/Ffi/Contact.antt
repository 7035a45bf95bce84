-- ===== src/Ffi/Contact.antt =====
-- ffi.rs, `signal_ffi`: the handle on the contacts and the chat log.
use Prim.Native.String.{String}
use mesui.Prelude.{ℕ, Bool, Option, List, Bytes, Result, map}
use mesui.Prelude.Integers.{ℤ}
use mesui.Contacts
use mesui.Contacts.{ContactInfo, ChatMsg, ContactStore}
use mesui.Ffi.Errors.{DcResult, from_core, ◌>>=◌, returned}

pub record Contact : Type 0 where
  pub name : Bytes
  pub identity : Bytes
  pub bucket : Bytes
  pub verified : Bool
  pub note : Bytes
  pub added_ms : ℕ
  pub link_secret : Bytes
  pub node_id : Bytes
  pub node_naddr : Bytes

pub record ChatMessage : Type 0 where
  pub peer : Bytes
  pub outgoing : Bool
  pub text : Bytes
  pub ts_ms : ℕ

-- A method of the store.
abbrev pub through : {A B : Type 0} → (A → B) → ContactStore × Result A → ContactStore × DcResult B
through f (s, r) = (s, from_core r >>= λ a. returned (f a))

abbrev pub contact : ContactInfo → Contact
contact c = record {
  name = c.name;
  identity = c.identity;
  bucket = c.bucket;
  verified = c.verified;
  note = c.note;
  added_ms = c.added_ms;
  link_secret = c.link_secret;
  node_id = c.node_id;
  node_naddr = c.node_naddr;
}

abbrev pub chat_message : ChatMsg → ChatMessage
chat_message m = record { peer = m.peer; outgoing = m.outgoing; text = m.text; ts_ms = m.ts_ms }

unfoldable pub upsert_contact :
    ContactInfo → Option String → ContactStore → ContactStore × DcResult (Unit {0})
unfolding Contacts.upsert
upsert_contact new fault s = through (λ u. u) (Contacts.upsert new fault s)

unfoldable pub list_contacts : Option String → ContactStore → ContactStore × DcResult (List Contact)
unfolding Contacts.list
list_contacts fault s = through (λ list. map contact list) (Contacts.list fault s)

unfoldable pub set_verified :
    Bytes → Bool → Option String → ContactStore → ContactStore × DcResult (Unit {0})
unfolding Contacts.set_verified
set_verified name verified fault s = through (λ u. u) (Contacts.set_verified name verified fault s)

unfoldable pub delete_contact :
    Bytes → Option String → ContactStore → ContactStore × DcResult (Unit {0})
unfolding Contacts.delete
delete_contact name fault s = through (λ u. u) (Contacts.delete name fault s)

unfoldable pub append_message :
    ChatMsg → Option String → ContactStore → ContactStore × DcResult (Unit {0})
unfolding Contacts.append_message
append_message msg fault s = through (λ u. u) (Contacts.append_message msg fault s)

unfoldable pub last_messages :
    Option String → ContactStore → ContactStore × DcResult (List ChatMessage)
unfolding Contacts.last_messages
last_messages fault s = through (λ list. map chat_message list) (Contacts.last_messages fault s)

unfoldable pub messages :
    Bytes → ℤ → Option String → ContactStore → ContactStore × DcResult (List ChatMessage)
unfolding Contacts.messages
messages peer limit fault s =
    through (λ list. map chat_message list) (Contacts.messages peer limit fault s)
