-- ===== src/Mailbox/Ledger.antt =====
-- mailbox.rs, `NonceCache`: the ledger of message ids stays within its capacity, and an id is on record
-- until the clock has left its window behind.
use mesui.Prelude.{
  bytes_eq_refl, saturating_add, leb, le_trans, dec_lt, ℕ, ◌+◌, ◌≤◌, ◌<◌, ◌≡◌, refl, ◌∙◌, ◌⊎◌, inl,
  inr, Bool, true, false, none, some, Bytes, length, retain, length-retain-le, arith, i64_max,
  Bool-cases,
}
use mesui.Prelude.Map.{
  Map, Distinct, get, insert, contains_key, get-insert, get-retain_kept, insert-Distinct,
  retain-Distinct, length-insert-le,
}
use mesui.Mailbox.{NonceCache, is_live, check_and_insert, replay_window_ms}

pub record IsValid (c : NonceCache) : Type 0 where
  pub bounded : length c.entries ≤ c.hard_cap
  pub distinct : Distinct c.entries

abbrev pub live_entries : NonceCache → ℕ → Map ℕ
live_entries c now_ms = retain (is_live now_ms) c.entries

abbrev pub expiry_of : ℕ → ℕ
expiry_of ts_ms = saturating_add ts_ms 420_000

absent : (k : Bytes) (m : Map ℕ) → contains_key k m ≡ false → get k m ≡ none
absent k m h = ground arith

not_full : (a b : ℕ) → leb a b ≡ false → b < a
not_full a b h = ground arith

-- The three ways through `check_and_insert`.
check_cases :
    (P : NonceCache × Bool → Type 0) (c : NonceCache) (msg_id : Bytes) (ts_ms now_ms : ℕ)
    → P (record c { entries = live_entries c now_ms }, false)
    → (get msg_id (live_entries c now_ms) ≡ none
        → length (live_entries c now_ms) < c.hard_cap
        → P (record c { entries = insert msg_id (expiry_of ts_ms) (live_entries c now_ms) }, true))
    → P (check_and_insert c msg_id ts_ms now_ms)
unfolding check_and_insert
check_cases P c msg_id ts_ms now_ms refused admitted =
    elim (Bool-cases (contains_key msg_id (live_entries c now_ms))) [
      | inl known ↦ rw (known, check_and_insert) refused
      | inr fresh ↦ elim (Bool-cases (leb c.hard_cap (length (live_entries c now_ms)))) [
        | inl full ↦ rw (fresh, full, check_and_insert) refused
        | inr room ↦
            rw (fresh, room, check_and_insert)
              (admitted (absent msg_id (live_entries c now_ms) fresh) (not_full _ _ room))
      ]
    ]

live-Distinct : (c : NonceCache) (now_ms : ℕ) → IsValid c → Distinct (live_entries c now_ms)
live-Distinct c now_ms v = retain-Distinct (is_live now_ms) c.entries v.distinct

length-live : (c : NonceCache) (now_ms : ℕ) → length (live_entries c now_ms) ≤ length c.entries
length-live c now_ms = length-retain-le (is_live now_ms) c.entries

-- `check_and_insert` never holds more entries than the capacity, and no id twice.
check_and_insert-IsValid :
    (c : NonceCache) (msg_id : Bytes) (ts_ms now_ms : ℕ)
    → IsValid c
    → IsValid (check_and_insert c msg_id ts_ms now_ms).0
check_and_insert-IsValid c msg_id ts_ms now_ms v =
    check_cases (λ r. IsValid r.0) c msg_id ts_ms now_ms
      (record {
        bounded = le_trans (length-live c now_ms) v.bounded;
        distinct = live-Distinct c now_ms v;
      })
      (λ fresh room. record {
        bounded = omega (arith, length-insert-le msg_id (expiry_of ts_ms) (live_entries c now_ms));
        distinct =
            insert-Distinct msg_id (expiry_of ts_ms) (live_entries c now_ms)
              (live-Distinct c now_ms v);
      })

-- Either the id is on record with an expiry past the window of `ts_ms`, or the clock has left that
-- window behind.
abbrev pub Guarded : NonceCache → Bytes → ℕ → ℕ → Type 0
Guarded c msg_id ts_ms now_ms =
    ((x : ℕ) × (get msg_id c.entries ≡ some x) × (ts_ms + 420_000 ≤ x) × (x ≤ i64_max))
    ⊎ (ts_ms + replay_window_ms < now_ms)

live-Guarded :
    (c : NonceCache) (id : Bytes) (ts now later : ℕ)
    → now ≤ later
    → Guarded c id ts now
    → Guarded (record c { entries = live_entries c later }) id ts later
live-Guarded c id ts now later h (inr past) = inr (omega arith)
live-Guarded c id ts now later h (inl (x, e, long, small)) = elim (dec_lt later (x + 120_000)) [
  | yes kept ↦ inl (x, get-retain_kept (is_live later) id c.entries x e (ground arith), long, small)
  | no over ↦ inr (omega arith)
]

insert-Guarded :
    (c : NonceCache) (m : Map ℕ) (id other : Bytes) (ts now expiry : ℕ)
    → get other m ≡ none
    → Guarded (record c { entries = m }) id ts now
    → Guarded (record c { entries = insert other expiry m }) id ts now
insert-Guarded c m id other ts now expiry fresh (inr past) = inr past
insert-Guarded c m id other ts now expiry fresh (inl (x, e, long, small)) =
    inl (x, get-insert id other expiry m ∙ ground arith, long, small)

pub check-Guarded :
    (c : NonceCache) (id other : Bytes) (ts now later other_ts : ℕ)
    → now ≤ later
    → Guarded c id ts now
    → Guarded (check_and_insert c other other_ts later).0 id ts later
check-Guarded c id other ts now later other_ts h g =
    let live = live-Guarded c id ts now later h g in
    check_cases (λ r. Guarded r.0 id ts later) c other other_ts later live
      (λ fresh room.
        insert-Guarded c (live_entries c later) id other ts later (expiry_of other_ts) fresh live)

-- A call that lets the id through has it on record.
pub check_and_insert-records :
    (c : NonceCache) (id : Bytes) (ts now : ℕ)
    → (check_and_insert c id ts now).1 ≡ true
    → get id (check_and_insert c id ts now).0.entries ≡ some (expiry_of ts)
check_and_insert-records c id ts now =
    check_cases (λ r. r.1 ≡ true → get id r.0.entries ≡ some (expiry_of ts)) c id ts now (λ h. cc)
      λ fresh room h. get-insert id id (expiry_of ts) (live_entries c now) ∙ rw (bytes_eq_refl id)

pub check_and_insert-refuses :
    (c : NonceCache) (id : Bytes) (ts now x : ℕ)
    → get id (live_entries c now) ≡ some x
    → (check_and_insert c id ts now).1 ≡ false
check_and_insert-refuses c id ts now x known =
    check_cases (λ r. r.1 ≡ false) c id ts now refl (λ fresh room. cc)
