-- ===== src/Clock/Cluster.antt =====
-- clock.rs, `peak_cluster` and `effective_offset`: which samples the offset comes from.
use mesui.Prelude.{
  ℕ, zero, suc, ◌/◌, ◌≤◌, ◌<◌, ◌≡◌, refl, subst, true, some, List, [], ◌∷◌, ◌++◌, arith, ltb,
  length, All, All-append, Bool-cases, inl, inr, get_elem?, Option-cases,
}
use mesui.Prelude.Sort.{sort, sort-All, length-sort}
use mesui.Prelude.Integers.{ℤ, pos, lez, ◌-ℤ◌, wrap}
use mesui.Clock.{
  InternalClock, cluster_tolerance_ms, longer, scan, fresh_offsets, best_run, peak_cluster, median,
  peers_offset, offset_or, fresh_network, effective_offset,
}

-- Neighbours whose distance is within the tolerance.
abbrev pub Near : ℤ → ℤ → Type 0
Near x y = lez (wrap (y -ℤ x)) (pos cluster_tolerance_ms) ≡ true

abbrev pub Chained : List ℤ → Type 0
Chained [] = Unit
Chained (x ∷ []) = Unit
Chained (x ∷ y ∷ ys) = Near x y × Chained (y ∷ ys)

abbrev EndsAt : ℤ → List ℤ → Type 0
EndsAt last [] = ⊥
EndsAt last (x ∷ []) = x ≡ last
EndsAt last (x ∷ y ∷ ys) = EndsAt last (y ∷ ys)

Chained-snoc :
    (last x : ℤ) (run : List ℤ)
    → EndsAt last run
    → Near last x
    → Chained run
    → Chained (run ++ x ∷ []) × EndsAt x (run ++ x ∷ [])
Chained-snoc last x [] e n c = absurd e
Chained-snoc last x (y ∷ []) e n c = ((rw e n, tt), refl)
Chained-snoc last x (y ∷ z ∷ zs) e n c =
    let (tail, ends) = Chained-snoc last x (z ∷ zs) e n c.1 in ((c.0, tail), ends)

longer-keeps : (P : List ℤ → Type 0) (best run : List ℤ) → P best → P run → P (longer best run)
longer-keeps P best run b r = elim (Bool-cases (ltb (length best) (length run))) [
  | inl t ↦ rw (t, longer) r
  | inr f ↦ rw (f, longer) b
]

scan-Chained :
    (last : ℤ) (best run xs : List ℤ)
    → Chained best
    → Chained run
    → EndsAt last run
    → Chained (scan last best run xs)
unfolding scan
scan-Chained last best run [] b r e = longer-keeps Chained best run b r
scan-Chained last best run (x ∷ xs) b r e =
    elim (Bool-cases (lez (wrap (x -ℤ last)) (pos cluster_tolerance_ms))) [
      | inl t ↦
          let (joined, ends) = Chained-snoc last x run e t r in
          rw (t, scan) (scan-Chained x best (run ++ x ∷ []) xs b joined ends)
      | inr f ↦
          rw (f, scan)
            (scan-Chained x (longer best run) (x ∷ []) xs (longer-keeps Chained best run b r) tt
              refl)
    ]

scan-All :
    (P : ℤ → Type 0) (last : ℤ) (best run xs : List ℤ)
    → All P best
    → All P run
    → All P xs
    → All P (scan last best run xs)
unfolding scan
scan-All P last best run [] b r a = longer-keeps (All P) best run b r
scan-All P last best run (x ∷ xs) b r a =
    elim (Bool-cases (lez (wrap (x -ℤ last)) (pos cluster_tolerance_ms))) [
      | inl t ↦
          rw (t, scan)
            (scan-All P x best (run ++ x ∷ []) xs b (All-append P run (x ∷ []) r (a.0, tt)) a.1)
      | inr f ↦
          rw (f, scan)
            (scan-All P x (longer best run) (x ∷ []) xs (longer-keeps (All P) best run b r)
              (a.0, tt) a.1)
    ]

best_run-Chained : (xs : List ℤ) → Chained (best_run xs)
unfolding best_run
best_run-Chained [] = tt
best_run-Chained (x ∷ xs) = scan-Chained x [] (x ∷ []) xs tt tt refl

best_run-All : (P : ℤ → Type 0) (xs : List ℤ) → All P xs → All P (best_run xs)
unfolding best_run
best_run-All P [] a = tt
best_run-All P (x ∷ xs) a = scan-All P x [] (x ∷ []) xs tt (a.0, tt) a.1

-- A cluster has at least three offsets, its neighbours lie within the tolerance, and what holds of
-- all offsets of fresh samples holds of its offsets.
pub peak_cluster_quorum :
    (P : ℤ → Type 0) (local_ms : ℤ) (c : InternalClock) (v : List ℤ)
    → All P (fresh_offsets local_ms c.peer_samples)
    → peak_cluster local_ms c ≡ some v
    → (3 ≤ length v) × Chained v × All P v
unfolding peak_cluster
peak_cluster_quorum P local_ms c v a h =
    let offsets = fresh_offsets local_ms c.peer_samples in
    let best = best_run (sort lez offsets) in
    let chained : Chained best = best_run-Chained (sort lez offsets) in
    let all : All P best = best_run-All P (sort lez offsets) (sort-All lez P offsets a) in
    let found : (3 ≤ length best) × (best ≡ v) = ground arith in
    (subst (λ l. (3 ≤ length l) × Chained l × All P l) found.1 (found.0, chained, all))

get_elem?-some : (xs : List ℤ) (i : ℕ) → i < length xs → (x : ℤ) × (get_elem? xs i ≡ some x)
get_elem?-some [] i h = absurd (omega arith)
get_elem?-some (x ∷ xs) zero h = (x, refl)
get_elem?-some (x ∷ xs) (suc i) h = get_elem?-some xs i (omega arith)

get_elem?-All :
    (P : ℤ → Type 0) (xs : List ℤ) (i : ℕ) {x : ℤ} → All P xs → get_elem? xs i ≡ some x → P x
get_elem?-All P [] i a h = cc
get_elem?-All P (y ∷ ys) zero {x} a h = let same : y ≡ x = cc in subst P same a.0
get_elem?-All P (y ∷ ys) (suc i) a h = get_elem?-All P ys i a.1 h

-- The median of a list that is not empty is there, and has what all its elements have.
median-some :
    (P : ℤ → Type 0) (v : List ℤ) → 3 ≤ length v → All P v → (o : ℤ) × (median v ≡ some o) × P o
median-some P v h a =
    let (o, e) = get_elem?-some (sort lez v) (length v / 2) (omega (arith, length-sort lez v)) in
    (o, e, get_elem?-All P (sort lez v) (length v / 2) (sort-All lez P v a) e)

peers_offset-some :
    (P : ℤ → Type 0) (local_ms : ℤ) (c : InternalClock)
    → P (pos 0)
    → All P (fresh_offsets local_ms c.peer_samples)
    → (o : ℤ) × (peers_offset (peak_cluster local_ms c) ≡ some o) × P o
peers_offset-some P local_ms c z a = elim (Option-cases (peak_cluster local_ms c)) [
  | inl n ↦ (pos 0, rw (n, peers_offset) refl, z)
  | inr (v, e) ↦
      let (enough, chained, all) = peak_cluster_quorum P local_ms c v a e in
      let (o, m, p) = median-some P v enough all in (o, rw (e, peers_offset) m, p)
]

-- The offset in force always exists, and has what zero, the network's and the fresh samples' have.
pub effective_offset-some :
    (P : ℤ → Type 0) (local_ms : ℤ) (c : InternalClock)
    → P (pos 0)
    → ((o : ℤ) → c.network_offset_ms ≡ some o → P o)
    → All P (fresh_offsets local_ms c.peer_samples)
    → (o : ℤ) × (effective_offset local_ms c ≡ some o) × P o
unfolding effective_offset
effective_offset-some P local_ms c z net a = elim (Option-cases (fresh_network local_ms c)) [
  | inl n ↦
      let (o, e, p) = peers_offset-some P local_ms c z a in
      (o, rw (n, effective_offset, offset_or) e, p)
  | inr (o, e) ↦ (o, rw (e, effective_offset, offset_or) refl, net o (ground arith))
]
