-- ===== src/Envelope/Dedup.antt =====
-- envelope.rs, `Dedup`: the set and the queue agree, and the queue is the window of the last ids.
use mesui.Prelude.{
  subst, ap₂, dec_lt, ℕ, ◌≤◌, ◌<◌, ◌≡◌, refl, sym, ap, ◌∙◌, Bool, true, false, not, ◌||◌, List, [],
  ◌∷◌, ◌++◌, Bytes, bytes_eq, if◌then◌else◌, length, any, length-append, arith, Bool-cases, inl,
  inr,
}
use mathlib.Core.List.{append-nil}
use mesui.Prelude.Map.{get, contains_key, insert, get-insert}
use mesui.Envelope.{DedupSet, new, check_and_insert}
use mesui.Envelope.Evict.{contains, Nodup, last, Agree, last_fits, last_over, evict_lem}

pub record IsValid (d : DedupSet) : Type 0 where
  pub positive : 0 < d.cap
  pub bounded : length d.order ≤ d.cap
  pub distinct : Nodup d.order
  pub agree : (id : Bytes) → contains_key id d.seen ≡ contains id d.order

contains-append :
    (id x : Bytes) (xs : List Bytes) → contains id (xs ++ x ∷ []) ≡ contains id xs || bytes_eq x id
unfolding any
contains-append id x [] = ground arith
contains-append id x (y ∷ ys) = ground (arith, contains-append id x ys)

Nodup-append :
    (x : Bytes) (xs : List Bytes) → contains x xs ≡ false → Nodup xs → Nodup (xs ++ x ∷ [])
unfolding any
Nodup-append x [] h d = (refl, tt)
Nodup-append x (y ∷ ys) h d = ground (arith, contains-append y x ys, Nodup-append x ys)

-- What one call does: a repeated id is refused and the window stays as it is; a new one is let
-- through and becomes the newest of the window, which keeps the last `cap` ids.
abbrev pub next_window : DedupSet → Bytes → List Bytes
next_window d id = if contains id d.order then d.order else last d.cap (d.order ++ id ∷ [])

pub new-IsValid : (n : ℕ) → IsValid (new n)
unfolding new any get
new-IsValid n = record {
  positive = omega arith;
  bounded = omega arith;
  distinct = tt;
  agree = λ id. refl;
}

record Step (d : DedupSet) (id : Bytes) (r : DedupSet × Bool) : Type 0 where
  valid : IsValid r.0
  answer : r.1 ≡ not (contains id d.order)
  order : r.0.order ≡ next_window d id
  same_cap : r.0.cap ≡ d.cap

Agree-insert :
    (d : DedupSet) (id : Bytes) → IsValid d → Agree (d.order ++ id ∷ []) (insert id tt d.seen)
Agree-insert d id v k =
    ground (arith, v.agree k, get-insert k id tt d.seen, contains-append k id d.order)

repeated :
    (d : DedupSet) (id : Bytes)
    → IsValid d
    → contains_key id d.seen ≡ true
    → Agree d.order (insert id tt d.seen)
repeated d id v old k = ground (
  arith,
  v.agree k,
  v.agree id,
  get-insert k id tt d.seen,
  λ (p : id ≡ k). ap (λ x. contains x d.order) p,
)

check_and_insert_lem : (d : DedupSet) (id : Bytes) → IsValid d → Step d id (check_and_insert d id)
unfolding check_and_insert
check_and_insert_lem d id v = elim (Bool-cases (contains_key id d.seen)) [
  | inl old ↦
      let here : contains id d.order ≡ true = sym (v.agree id) ∙ old in
      rw old (record {
        valid = record {
          positive = v.positive;
          bounded = v.bounded;
          distinct = v.distinct;
          agree = repeated d id v old;
        };
        answer = rw here;
        order = rw here;
        same_cap = refl;
      })
  | inr fresh ↦
      let away : contains id d.order ≡ false = sym (v.agree id) ∙ fresh in
      let e =
        evict_lem d.cap (d.order ++ id ∷ []) (insert id tt d.seen)
          (Nodup-append id d.order away v.distinct) (Agree-insert d id v) in
      rw fresh (record {
        valid = record {
          positive = v.positive;
          bounded = e.fits;
          distinct = e.unique;
          agree = e.same;
        };
        answer = rw away;
        order = rw away e.window;
        same_cap = refl;
      })
]

-- `check_and_insert` keeps the set valid; it lets an id through exactly when the window does not
-- hold it, and the window afterwards is `next_window`.
pub check_and_insert-window :
    (d : DedupSet) (id : Bytes)
    → IsValid d
    → IsValid (check_and_insert d id).0
      × ((check_and_insert d id).1 ≡ not (contains id d.order))
      × ((check_and_insert d id).0.order ≡ next_window d id)
check_and_insert-window d id v = let s = check_and_insert_lem d id v in (s.valid, s.answer, s.order)

-- The ids of a stream, one call each: the final state, and the ids that were let through.
unfoldable pub run : DedupSet → List Bytes → DedupSet × List Bytes
run d [] = (d, [])
run d (id ∷ ids) =
    let (d', fresh) = check_and_insert d id in
    let (end, through) = run d' ids in (end, if fresh then id ∷ through else through)

last-append : (n : ℕ) (xs ys : List Bytes) → last n (last n xs ++ ys) ≡ last n (xs ++ ys)
last-append n [] ys = rw (last_fits n [] (omega arith))
last-append n (x ∷ xs) ys = elim (dec_lt n (length (x ∷ xs))) [
  | yes over ↦
      let le : n ≤ length (xs ++ ys) = omega (arith, length-append xs ys) in
      rw (last_over n x xs (omega arith)) (last-append n xs ys ∙ sym (last_over n x (xs ++ ys) le))
  | no small ↦ ap (λ zs. last n (zs ++ ys)) (last_fits n (x ∷ xs) (omega arith))
]

append-one : (xs ys : List Bytes) (x : Bytes) → (xs ++ x ∷ []) ++ ys ≡ xs ++ x ∷ ys
append-one [] ys x = refl
append-one (z ∷ zs) ys x = ap (◌∷◌ z) (append-one zs ys x)

run_order :
    (d : DedupSet) (ids : List Bytes)
    → IsValid d
    → ((run d ids).0.order ≡ last d.cap (d.order ++ (run d ids).1)) × Nodup (run d ids).0.order
unfolding run
run_order d [] v = (sym (rw (append-nil d.order) (last_fits d.cap d.order v.bounded)), v.distinct)
run_order d (id ∷ ids) v =
    let s = check_and_insert_lem d id v in
    let d' = (check_and_insert d id).0 in
    let ih = run_order d' ids s.valid in
    let through = (run d' ids).1 in
    let later : last d'.cap (d'.order ++ through) ≡ last d.cap (next_window d id ++ through) =
      ap₂ (λ n zs. last n (zs ++ through)) s.same_cap s.order in
    elim (Bool-cases (contains id d.order)) [
      | inl old ↦ rw (s.answer, old) (ih.0 ∙ later ∙ rw old, ih.1)
      | inr fresh ↦
          rw (s.answer, fresh)
            (
              ih.0
                  ∙ later
                  ∙ rw fresh (last-append d.cap (d.order ++ id ∷ []) through)
                  ∙ ap (last d.cap) (append-one d.order through id),
              ih.1,
            )
    ]

run-IsValid : (d : DedupSet) (ids : List Bytes) → IsValid d → IsValid (run d ids).0
unfolding run
run-IsValid d [] v = v
run-IsValid d (id ∷ ids) v =
    run-IsValid (check_and_insert d id).0 ids (check_and_insert_lem d id v).valid

-- The last `cap` ids that were in a set or that it let through.
abbrev pub window : DedupSet → List Bytes → List Bytes
window d ids = last d.cap (d.order ++ (run d ids).1)

-- However long the stream, a valid set remembers exactly the last `cap` ids that were in it or that it let
-- through: its queue is those ids, in their order and none twice, its hash set holds an id exactly when it
-- is one of them, and the next id is let through exactly when it is none of them.
pub run-window :
    (d : DedupSet) (ids : List Bytes)
    → IsValid d
    → ((run d ids).0.order ≡ window d ids)
      × Nodup (window d ids)
      × ((id : Bytes) → contains_key id (run d ids).0.seen ≡ contains id (window d ids))
      × ((id : Bytes) → (check_and_insert (run d ids).0 id).1 ≡ not (contains id (window d ids)))
run-window d ids v =
    let (order, distinct) = run_order d ids v in
    let valid = run-IsValid d ids v in
    (
      order,
      subst Nodup order distinct,
      λ id. valid.agree id ∙ ap (contains id) order,
      λ id.
          (check_and_insert_lem (run d ids).0 id valid).answer
          ∙ ap (λ w. not (contains id w)) order,
    )
