-- ===== src/Node/Split.antt =====
-- node.rs: how a text is cut at a separator (`split`, `split_once` and `strip_prefix` of `str`).
use mesui.Prelude.{
  ℕ, ◌≡◌, ◌≢◌, refl, sym, ap, ◌∙◌, Option, none, some, List, [], ◌∷◌, ◌++◌, Bytes, ◌==◌,
  if◌then◌else◌, All, arith,
}
use mathlib.Core.List.{append_assoc, append-nil}

-- `split(sep)`, with the piece read so far.
unfoldable pub split_from : ℕ → Bytes → Bytes → List Bytes
split_from sep piece [] = piece ∷ []
split_from sep piece (c ∷ cs) =
    if c == sep then piece ∷ split_from sep [] cs else split_from sep (piece ++ c ∷ []) cs

abbrev pub split : ℕ → Bytes → List Bytes
split sep s = split_from sep [] s

-- `split_once(sep)`, with what was read so far.
unfoldable pub split_once_from : ℕ → Bytes → Bytes → Option (Bytes × Bytes)
split_once_from sep before [] = none
split_once_from sep before (c ∷ cs) =
    if c == sep then some (before, cs) else split_once_from sep (before ++ c ∷ []) cs

abbrev pub split_once : ℕ → Bytes → Option (Bytes × Bytes)
split_once sep s = split_once_from sep [] s

unfoldable pub strip_prefix : Bytes → Bytes → Option Bytes
strip_prefix [] s = some s
strip_prefix (p ∷ ps) [] = none
strip_prefix (p ∷ ps) (c ∷ cs) = if p == c then strip_prefix ps cs else none

-- `join(sep)`.
unfoldable pub join : ℕ → List Bytes → Bytes
join sep [] = []
join sep (x ∷ []) = x
join sep (x ∷ y ∷ xs) = x ++ (sep ∷ join sep (y ∷ xs))

abbrev pub Lacks : ℕ → Bytes → Type 0
Lacks sep = All (λ c. c ≢ sep)

split_from-last :
    (sep : ℕ) (piece xs : Bytes) → Lacks sep xs → split_from sep piece xs ≡ (piece ++ xs) ∷ []
unfolding split_from
split_from-last sep piece [] h = ap (λ p. p ∷ []) (sym (append-nil piece))
split_from-last sep piece (x ∷ xs) h =
    ground
      (arith, h.0, split_from-last sep (piece ++ x ∷ []) xs h.1, append_assoc piece (x ∷ []) xs)

pub split_from-next :
    (sep : ℕ) (piece xs ys : Bytes)
    → Lacks sep xs
    → split_from sep piece (xs ++ (sep ∷ ys)) ≡ (piece ++ xs) ∷ split_from sep [] ys
unfolding split_from
split_from-next sep piece [] ys h = ground (arith, append-nil piece)
split_from-next sep piece (x ∷ xs) ys h =
    ground
      (arith, h.0, split_from-next sep (piece ++ x ∷ []) xs ys h.1, append_assoc piece (x ∷ []) xs)

pub split_once_from_lem :
    (sep : ℕ) (before xs ys : Bytes)
    → Lacks sep xs
    → split_once_from sep before (xs ++ (sep ∷ ys)) ≡ some (before ++ xs, ys)
unfolding split_once_from
split_once_from_lem sep before [] ys h = ground (arith, append-nil before)
split_once_from_lem sep before (x ∷ xs) ys h = ground (
  arith,
  h.0,
  split_once_from_lem sep (before ++ x ∷ []) xs ys h.1,
  append_assoc before (x ∷ []) xs,
)

pub strip_prefix-append : (p s : Bytes) → strip_prefix p (p ++ s) ≡ some s
unfolding strip_prefix
strip_prefix-append [] s = refl
strip_prefix-append (p ∷ ps) s = ground (arith, strip_prefix-append ps s)

-- Pieces without the separator, joined by it, are cut apart again.
pub split-join :
    (sep : ℕ) (p : Bytes) (ps : List Bytes)
    → All (Lacks sep) (p ∷ ps)
    → split sep (join sep (p ∷ ps)) ≡ p ∷ ps
unfolding join
split-join sep p [] h = split_from-last sep [] p h.0
split-join sep p (q ∷ ps) h =
    split_from-next sep [] p (join sep (q ∷ ps)) h.0 ∙ ap (◌∷◌ p) (split-join sep q ps h.1)
