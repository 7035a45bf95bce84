-- ===== src/Contacts/Chat.antt =====
-- contacts.rs, `messages`: the newest of one peer, in the order of time.
use mesui.Prelude.{
  ℕ, zero, suc, ◌≤◌, ◌≡◌, true, false, List, [], ◌∷◌, Bytes, arith, length, take, retain, All,
  Bool-cases, inl, inr, length-take-le,
}
use mesui.Prelude.Sort.{sort, sort-All, length-sort, Sorted, sort-Sorted}
use mesui.Prelude.Integers.{pos}
use mesui.Contacts.{ChatMsg, of_peer, newest_first, oldest_first, recent}

abbrev pub OfPeer : Bytes → ℕ × ChatMsg → Type 0
OfPeer peer row = of_peer peer row ≡ true

retain-OfPeer :
    (peer : Bytes) (rows : List (ℕ × ChatMsg)) → All (OfPeer peer) (retain (of_peer peer) rows)
unfolding retain
retain-OfPeer peer [] = tt
retain-OfPeer peer (row ∷ rows) = elim (Bool-cases (of_peer peer row)) [
  | inl t ↦ rw (t, retain) (t, retain-OfPeer peer rows)
  | inr f ↦ rw (f, retain) (retain-OfPeer peer rows)
]

take-OfPeer :
    (peer : Bytes) (n : ℕ) (rows : List (ℕ × ChatMsg))
    → All (OfPeer peer) rows
    → All (OfPeer peer) (take n rows)
take-OfPeer peer zero rows a = tt
take-OfPeer peer (suc n) [] a = tt
take-OfPeer peer (suc n) (row ∷ rows) a = (a.0, take-OfPeer peer n rows a.1)

oldest_first_total : (a b : ℕ × ChatMsg) → oldest_first a b ≡ false → oldest_first b a ≡ true
oldest_first_total a b h = ground arith

-- The rows that `messages` reads are of the peer, no more than the limit, and in the order of their
-- times.
pub recent_lem :
    (peer : Bytes) (n : ℕ) (rows : List (ℕ × ChatMsg))
    → All (OfPeer peer) (recent peer (pos n) rows)
      × (length (recent peer (pos n) rows) ≤ n)
      × Sorted oldest_first (recent peer (pos n) rows)
recent_lem peer n rows =
    let found = retain (of_peer peer) rows in
    let newest = take n (sort newest_first found) in
    (
      sort-All oldest_first (OfPeer peer) newest (
          take-OfPeer peer n (sort newest_first found)
            (sort-All newest_first (OfPeer peer) found (retain-OfPeer peer rows))),
      omega (arith, length-sort oldest_first newest, length-take-le n (sort newest_first found)),
      sort-Sorted oldest_first oldest_first_total newest,
    )
