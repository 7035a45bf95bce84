-- ===== src/Contacts/Tests.antt =====
-- The theorems on the contacts at concrete rows.
use Prim.Native.String.{String}
use mesui.Prelude.{
  Option, Bool, false, true, none, some, ◌==◌, if◌then◌else◌, arith, All, ◌≢◌, ℕ, ℕ, ◌≡◌, true,
  false, none, some, Option, List, [], ◌∷◌, Bytes, replicate, drop,
}
use mesui.Contacts.{ContactInfo, ChatMsg, ContactStore, pragma_key}
use mesui.Contacts.Literal.{Literals, pragma_key_lem}
use mesui.Contacts.Table.{IsValid}
use mesui.Contacts.Calls.{StoreCall, upserts, verifies, deletes, appends, run, store_calls-IsValid}

abbrev before_text : ℕ → Option (Bytes × Bytes) → Option (Bytes × Bytes)
before_text c none = none
before_text c (some (text, rest)) = some (c ∷ text, rest)

-- A key of two quotes and a semicolon.
abbrev key : Bytes
key = 39 ∷ 59 ∷ 39 ∷ []

-- A literal read with whether a quote was just read. It ends at a NUL.
unfoldable read_literal : Bool → Bytes → Option (Bytes × Bytes)
read_literal false [] = none
read_literal false (c ∷ cs) =
    let closing = read_literal true cs in
    let inside = read_literal false cs in
    if c == 39 then closing else if c == 0 then none else before_text c inside
read_literal true [] = some ([], [])
read_literal true (c ∷ cs) =
    let inside = read_literal false cs in
    if c == 39 then before_text 39 inside else some ([], c ∷ cs)

read_literal-Literals : Literals (read_literal false)
unfolding read_literal
read_literal-Literals = record {
  closing = λ c cs n. ground arith;
  doubled = λ cs text rest e. ground arith;
  plain = λ c cs text rest n z e. ground arith;
}

no_nul : All (λ c. c ≢ 0) key
no_nul = ground arith

pragma_key_lem_example : read_literal false (drop 14 (pragma_key key)) ≡ some (key, 59 ∷ [])
pragma_key_lem_example = pragma_key_lem (read_literal false) read_literal-Literals key no_nul

abbrev bob : ContactInfo
bob = record {
  name = 98 ∷ [];
  identity = replicate 33 1;
  bucket = replicate 32 2;
  verified = false;
  note = [];
  added_ms = 5;
  link_secret = replicate 32 3;
  node_id = [];
  node_naddr = [];
}

abbrev hello : ChatMsg
hello = record { peer = 98 ∷ []; outgoing = true; text = 104 ∷ []; ts_ms = 7 }

abbrev empty : ContactStore
empty = record { contacts = []; chat_log = []; last_id = 0 }

-- The fourth call is refused.
abbrev calls : List (StoreCall × Option String)
calls =
    (upserts bob, none)
    ∷ (verifies (98 ∷ []) true, none)
    ∷ (appends hello, none)
    ∷ (deletes (98 ∷ []), some "database is locked")
    ∷ (upserts bob, none)
    ∷ []

store_calls-IsValid_example : IsValid (run calls empty)
store_calls-IsValid_example = store_calls-IsValid calls empty (record { sized = tt; distinct = tt })

abbrev log : List (ℕ × ChatMsg)
log = (1, hello) ∷ (2, record hello { peer = 99 ∷ [] }) ∷ (3, record hello { ts_ms = 6 }) ∷ []
