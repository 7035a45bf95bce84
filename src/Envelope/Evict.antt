-- ===== src/Envelope/Evict.antt =====
-- envelope.rs, `Dedup::check_and_insert`: its loop drops ids from the queue and the set alike.
use mesui.Prelude.{
  ℕ, zero, suc, ◌-◌, ◌≤◌, ◌≡◌, sym, ◌∙◌, Bool, false, List, [], ◌∷◌, Bytes, bytes_eq, ltb, length,
  drop, any, arith, Bool-cases, inl, inr,
}
use mesui.Prelude.Map.{Map, contains_key, remove, get-remove}
use mesui.Envelope.{evict}

abbrev pub contains : Bytes → List Bytes → Bool
contains id = any (λ j. bytes_eq j id)

abbrev pub Nodup : List Bytes → Type 0
Nodup [] = Unit
Nodup (x ∷ xs) = (contains x xs ≡ false) × Nodup xs

-- The last `n` elements.
abbrev pub last : ℕ → List Bytes → List Bytes
last n xs = drop (length xs - n) xs

abbrev pub Agree : List Bytes → Map (Unit {0}) → Type 0
Agree order seen = (id : Bytes) → contains_key id seen ≡ contains id order

Agree-remove :
    (old : Bytes) (rest : List Bytes) (seen : Map (Unit {0}))
    → Nodup (old ∷ rest)
    → Agree (old ∷ rest) seen
    → Agree rest (remove old seen)
unfolding any
Agree-remove old rest seen d h id = ground (arith, h id, get-remove id old seen)

pub last_fits : (n : ℕ) (xs : List Bytes) → length xs ≤ n → last n xs ≡ xs
last_fits n xs h = let e : length xs - n ≡ zero = omega arith in rw e

pub last_over : (n : ℕ) (x : Bytes) (xs : List Bytes) → n ≤ length xs → last n (x ∷ xs) ≡ last n xs
last_over n x xs h = let e : suc (length xs) - n ≡ suc (length xs - n) = omega arith in rw e

-- The loop drops from the front what does not fit, from the queue and from the set alike.
pub record Evicted (n : ℕ) (order : List Bytes) (result : List Bytes × Map (Unit {0}))
    : Type 0 where
  pub window : result.0 ≡ last n order
  pub same : Agree result.0 result.1
  pub unique : Nodup result.0
  pub fits : length result.0 ≤ n

pub evict_lem :
    (n : ℕ) (order : List Bytes) (seen : Map (Unit {0}))
    → Nodup order
    → Agree order seen
    → Evicted n order (evict n order seen)
unfolding evict
evict_lem n [] seen d h = record {
  window = sym (last_fits n [] (omega arith));
  same = h;
  unique = tt;
  fits = omega arith;
}
evict_lem n (old ∷ rest) seen d h = elim (Bool-cases (ltb n (length (old ∷ rest)))) [
  | inl over ↦
      let r = evict_lem n rest (remove old seen) d.1 (Agree-remove old rest seen d h) in
      rw over (record {
        window = r.window ∙ sym (last_over n old rest (ground arith));
        same = r.same;
        unique = r.unique;
        fits = r.fits;
      })
  | inr small ↦
      let le : length (old ∷ rest) ≤ n = ground arith in
      rw small
        (record { window = sym (last_fits n (old ∷ rest) le); same = h; unique = d; fits = le })
]
