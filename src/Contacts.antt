-- ===== src/Contacts.antt =====
-- crates/core/src/contacts.rs: the contacts and the chat log, in an encrypted SQLite database. The
-- tables are lists of rows in order of insertion. A method has one argument for what the lock and the
-- engine make of it: the text of the first error, upon which nothing is written, or `none`. Texts are
-- lists of codes, and the time that `now_ms` reads is an argument.
pub mod Table
pub mod Calls
pub mod Chat
pub mod Literal
pub mod Open
mod Tests
use Prim.Native.String.{String}
use mesui.Prelude.{
  ℕ, suc, ◌+◌, Bool, true, false, not, ◌&&◌, ◌||◌, Option, none, some, List, [], ◌∷◌, ◌++◌, Bytes,
  bytes_eq, codes, ltb, leb, ◌==◌, if◌then◌else◌, length, take, retain, any, map, Result, ok, err,
  config, db, fail_if, ◌>>=◌, ◌>>◌,
}
use mesui.Prelude.Sort.{sort}
use mesui.Prelude.Integers.{ℤ, pos, negsuc}

pub record ContactInfo : Type 0 where
  pub name : Bytes
  pub identity : Bytes
  pub bucket : Bytes
  pub verified : Bool
  pub note : Bytes
  pub added_ms : ℕ
  pub link_secret : Bytes
  pub node_id : Bytes
  pub node_naddr : Bytes

pub record ChatMsg : Type 0 where
  pub peer : Bytes
  pub outgoing : Bool
  pub text : Bytes
  pub ts_ms : ℕ

-- The tables; `last_id` is the last key that AUTOINCREMENT gave.
pub record ContactStore : Type 0 where
  pub contacts : List ContactInfo
  pub chat_log : List (ℕ × ChatMsg)
  pub last_id : ℕ

-- `k.replace('\'', "''")`, with the code 39 of the quote.
unfoldable pub escape : Bytes → Bytes
escape [] = []
escape (c ∷ cs) = if c == 39 then 39 ∷ 39 ∷ escape cs else c ∷ escape cs

unfoldable pub pragma_key : Bytes → Bytes
unfolding escape codes
pragma_key key = codes "PRAGMA key = '" ++ (escape key ++ codes "';")

-- A statement on the store, unless the lock or the engine fails.
abbrev pub execute :
    {A : Type 0}
    → Option String
    → (ContactStore → ContactStore × A)
    → ContactStore
    → ContactStore × Result A
execute (some e) run s = (s, err (db e))
execute none run s = let (s', a) = run s in (s', ok a)

abbrev pub has_name : Bytes → ContactInfo → Bool
has_name name c = bytes_eq c.name name

unfoldable pub update : Bytes → (ContactInfo → ContactInfo) → List ContactInfo → List ContactInfo
update name f [] = []
update name f (c ∷ cs) = (if has_name name c then f c else c) ∷ update name f cs

-- ON CONFLICT(name) DO UPDATE: all but the time of the first insertion.
abbrev pub overwrite : ContactInfo → ContactInfo → ContactInfo
overwrite new old = record new { added_ms = old.added_ms }

abbrev pub put : ContactInfo → List ContactInfo → List ContactInfo
put new cs =
    if any (has_name new.name) cs then update new.name (overwrite new) cs else cs ++ new ∷ []

-- The tests before the statement.
unfoldable pub check_sizes : ContactInfo → Result (Unit {0})
check_sizes c = do
  fail_if (not (length c.identity == 32 || length c.identity == 33))
      (config "contact identity must be 32 or 33 bytes (libsignal serialize = 33)")
  fail_if (not (length c.bucket == 32)) (config "contact bucket must be 32 bytes")
  fail_if (not (length c.link_secret == 32)) (config "contact link_secret must be 32 bytes")
  ok tt

-- The arguments and the time are given as the row that they make.
unfoldable pub upsert :
    ContactInfo → Option String → ContactStore → ContactStore × Result (Unit {0})
unfolding check_sizes update any
upsert new fault s = elim (check_sizes new) [
  | err e ↦ (s, err e)
  | ok _ ↦ execute fault (λ s. (record s { contacts = put new s.contacts }, tt)) s
]

abbrev pub by_added : ContactInfo → ContactInfo → Bool
by_added a b = leb a.added_ms b.added_ms

unfoldable pub list : Option String → ContactStore → ContactStore × Result (List ContactInfo)
list fault s = execute fault (λ s. (s, sort by_added s.contacts)) s

unfoldable pub set_verified :
    Bytes → Bool → Option String → ContactStore → ContactStore × Result (Unit {0})
unfolding update
set_verified name verified fault s =
    execute fault
      (λ s. (
        record s { contacts = update name (λ c. record c { verified = verified }) s.contacts },
        tt,
      ))
      s

unfoldable pub delete : Bytes → Option String → ContactStore → ContactStore × Result (Unit {0})
delete name fault s =
    execute fault
      (λ s. (record s { contacts = retain (λ c. not (has_name name c)) s.contacts }, tt)) s

unfoldable pub append_message :
    ChatMsg → Option String → ContactStore → ContactStore × Result (Unit {0})
append_message msg fault s =
    execute fault
      (λ s. (
        record s { chat_log = s.chat_log ++ (suc s.last_id, msg) ∷ []; last_id = suc s.last_id },
        tt,
      ))
      s

abbrev pub of_peer : Bytes → ℕ × ChatMsg → Bool
of_peer peer row = bytes_eq row.1.peer peer

-- No later row is of the same peer: its id is the greatest.
unfoldable pub last_rows : List (ℕ × ChatMsg) → List (ℕ × ChatMsg)
last_rows [] = []
last_rows (row ∷ rows) =
    let rest = last_rows rows in if any (of_peer row.1.peer) rows then rest else row ∷ rest

abbrev pub later_first : ℕ × ChatMsg → ℕ × ChatMsg → Bool
later_first a b = leb b.1.ts_ms a.1.ts_ms

unfoldable pub last_messages : Option String → ContactStore → ContactStore × Result (List ChatMsg)
unfolding last_rows
last_messages fault s =
    execute fault (λ s. (s, map (λ row. row.1) (sort later_first (last_rows s.chat_log)))) s

-- ORDER BY ts_ms DESC, id DESC.
abbrev pub newest_first : ℕ × ChatMsg → ℕ × ChatMsg → Bool
newest_first a b = ltb b.1.ts_ms a.1.ts_ms || (b.1.ts_ms == a.1.ts_ms && leb b.0 a.0)

abbrev pub oldest_first : ℕ × ChatMsg → ℕ × ChatMsg → Bool
oldest_first a b = newest_first b a

-- LIMIT: a negative one is none.
abbrev pub limited : ℤ → List (ℕ × ChatMsg) → List (ℕ × ChatMsg)
limited (pos n) rows = take n rows
limited (negsuc n) rows = rows

abbrev pub recent : Bytes → ℤ → List (ℕ × ChatMsg) → List (ℕ × ChatMsg)
recent peer limit rows =
    sort oldest_first (limited limit (sort newest_first (retain (of_peer peer) rows)))

unfoldable pub messages :
    Bytes → ℤ → Option String → ContactStore → ContactStore × Result (List ChatMsg)
messages peer limit fault s =
    execute fault (λ s. (s, map (λ row. row.1) (recent peer limit s.chat_log))) s
