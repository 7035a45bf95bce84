-- ===== src/Clock/Monotone.antt =====
-- clock.rs, `now`: the clock does not run backwards while its offset stays, whatever the system's does.
use mesui.Prelude.{
  ℕ, ◌≤◌, ◌≡◌, refl, sym, ap, ap₂, subst, ◌∙◌, true, some, arith, Bool-cases, inl, inr, i64_max,
}
use mesui.Prelude.Integers.{ℤ, pos, negsuc, lez, wrap, max_int}
use mesui.Clock.{
  InternalClock, effective_offset, observe_local, settle, now, internal, new_high, to_nat,
}
use mesui.Clock.Bounds.{IsValid}
use mesui.Clock.Offset.{internal-pos, effective_offset_bound, new_high-le, now-some}

lez_refl : (x : ℤ) → lez x x ≡ true
unfolding lez
lez_refl (pos a) = ground arith
lez_refl (negsuc a) = ground arith

new_high-ge : (l o : ℤ) (c : InternalClock) → to_nat (internal l o) ≤ new_high l o c
unfolding new_high
new_high-ge l o c = ground arith

wrap-small : (n : ℕ) → n ≤ i64_max → wrap (pos n) ≡ pos n
unfolding wrap
wrap-small n h = ground arith

max-pos : (m n : ℕ) → m ≤ n → max_int (pos m) (pos n) ≡ pos n
unfolding max_int lez
max-pos m n h = ground arith

-- The result is the new high water, with a rollback and without.
settle-result : (l o : ℤ) (c : InternalClock) → IsValid c → (settle l o c).1 ≡ pos (new_high l o c)
unfolding settle
settle-result l o c v =
    let (n, e, small) = internal-pos l o in
    let whole = wrap-small (new_high l o c) (new_high-le l o c v.high) in
    let ge : n ≤ new_high l o c =
      subst (λ m. m ≤ new_high l o c) (ap to_nat e) (new_high-ge l o c) in
    let top : max_int (internal l o) (wrap (pos (new_high l o c))) ≡ pos (new_high l o c) =
      ap₂ max_int e whole ∙ max-pos n (new_high l o c) ge in
    elim (Bool-cases (observe_local l c).rollback_detected) [
      | inl t ↦ rw (t, settle) whole
      | inr f ↦ rw (f, settle) top
    ]

-- What `now` returns is the high water that it leaves behind.
pub now-high_water :
    (l t : ℤ) (c c' : InternalClock)
    → IsValid c
    → now l c ≡ some (c', t)
    → t ≡ pos c'.internal_high_water_ms
unfolding now
now-high_water l t c c' v h =
    let (o, e, small) = effective_offset_bound l c v in
    let result = settle-result l o c v in
    let came : now l c ≡ some (settle l o c) = rw (e, now) refl in
    let same : settle l o c ≡ (c', t) = cc in
    sym (ap (λ r. r.1) same) ∙ (result ∙ ap (λ r. pos r.0.internal_high_water_ms) same)

-- A reading at the offset that was last in force is no earlier than the high water.
pub now-ge :
    (l t : ℤ) (c c' : InternalClock)
    → IsValid c
    → effective_offset l c ≡ some c.last_offset_ms
    → now l c ≡ some (c', t)
    → (n : ℕ) × (t ≡ pos n) × (c.internal_high_water_ms ≤ n)
unfolding now new_high
now-ge l t c c' v same h =
    let o = c.last_offset_ms in
    let came : now l c ≡ some (settle l o c) = rw (same, now) refl in
    let pair : settle l o c ≡ (c', t) = cc in
    (new_high l o c, sym (ap (λ r. r.1) pair) ∙ settle-result l o c v, ground (arith, lez_refl o))

-- Of two readings one after the other from a valid state, at the same offset in force, the second
-- is no earlier than the first, also when the system clock was set back between them.
pub now_never_falls :
    (l1 l2 t1 t2 : ℤ) (c c1 c2 : InternalClock)
    → IsValid c
    → now l1 c ≡ some (c1, t1)
    → effective_offset l2 c1 ≡ some c1.last_offset_ms
    → now l2 c1 ≡ some (c2, t2)
    → lez t1 t2 ≡ true
unfolding lez
now_never_falls l1 l2 t1 t2 c c1 c2 v first same second =
    let (c', t, e, v') = now-some l1 c v in
    let state : c' ≡ c1 = cc in
    let v1 : IsValid c1 = subst IsValid state v' in
    let high = now-high_water l1 t1 c c1 v first in
    let (n, at, ge) = now-ge l2 t2 c1 c2 v1 same second in ap₂ lez high at ∙ ground arith
