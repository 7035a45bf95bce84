-- ===== src/Clock/Offset.antt =====
-- clock.rs, `effective_offset` and `now`: an offset of a day at most, and a clock that never fails.
use mesui.Prelude.{
  ℕ, ◌≤◌, ◌≡◌, refl, sym, ap, subst, Bool, false, Option, none, some, List, [], ◌∷◌, arith, All,
  All-retain, Bool-cases, inl, inr, retain, map, Bytes, min, i64_max, ◌||◌,
}
use mesui.Prelude.Map.{Map}
use mesui.Prelude.Integers.{
  ℤ, pos, negsuc, lez, ltz, ◌-ℤ◌, ◌+ℤ◌, wrap, clamp, max_int, saturating_plus, saturating_minus,
}
use mesui.Clock.{
  InternalClock, PeerSample, restore_high_water, trust_peer, distrust_peer, fresh_offsets,
  effective_offset, on_network_sync, on_peer_exchange, to_nat, observe_local, settle, now, internal,
  new_high,
}
use mesui.Clock.Cluster.{effective_offset-some}
use mesui.Clock.Bounds.{
  Small, SmallSample, IsValid, restore_high_water-IsValid, trust-IsValid, distrust-IsValid,
  on_network_sync-IsValid, on_peer_exchange-IsValid,
}

map-All :
    (m : List (Bytes × PeerSample))
    → All SmallSample m
    → All Small (map (λ (e : Bytes × PeerSample). e.1.offset_ms) m)
map-All [] a = tt
map-All (e ∷ m) a = (a.0, map-All m a.1)

fresh-Small : (l : ℤ) (m : Map PeerSample) → All SmallSample m → All Small (fresh_offsets l m)
unfolding fresh_offsets
fresh-Small l m a =
    map-All (retain (λ (e : Bytes × PeerSample). lez (wrap (l -ℤ pos 1_800_000)) e.1.at_local_ms) m)
      (All-retain SmallSample
        (λ (e : Bytes × PeerSample). lez (wrap (l -ℤ pos 1_800_000)) e.1.at_local_ms) m a)

-- In a valid state there is an offset in force at every moment, and it is at most a day.
pub effective_offset_bound :
    (local_ms : ℤ) (c : InternalClock)
    → IsValid c
    → (o : ℤ) × (effective_offset local_ms c ≡ some o) × Small o
effective_offset_bound local_ms c v =
    effective_offset-some Small local_ms c (omega arith) v.network
      (fresh-Small local_ms c.peer_samples v.samples)

-- The local clock's part of `now` changes its two fields only.
pub observe_local-keeps :
    (local_ms : ℤ) (c : InternalClock)
    → (h : ℤ) × (r : Bool) × (observe_local local_ms c
        ≡ record c { local_high_water_ms = h; rollback_detected = r })
unfolding observe_local
observe_local-keeps local_ms c = elim (Bool-cases (ltz c.local_high_water_ms local_ms)) [
  | inl t ↦ (local_ms, false, rw (t, observe_local) refl)
  | inr f ↦ (
    c.local_high_water_ms,
    c.rollback_detected || ltz local_ms (saturating_minus c.local_high_water_ms (pos 60_000)),
    rw (f, observe_local) refl,
  )
]

-- The corrected time is a natural number that fits an `i64`.
pub internal-pos :
    (local_ms offset : ℤ) → (n : ℕ) × (internal local_ms offset ≡ pos n) × (n ≤ i64_max)
unfolding max_int saturating_plus clamp lez
internal-pos local_ms offset = go (local_ms +ℤ offset)
  where
    go :
        (x : ℤ)
        → (n : ℕ) × (max_int (clamp (negsuc i64_max) (pos i64_max) x) (pos 0) ≡ pos n)
          × (n ≤ i64_max)
    go (pos a) = (min a i64_max, ground arith, omega arith)
    go (negsuc a) = (0, ground arith, omega arith)

pub new_high-le :
    (local_ms o : ℤ) (c : InternalClock)
    → c.internal_high_water_ms ≤ i64_max
    → new_high local_ms o c ≤ i64_max
unfolding new_high
new_high-le local_ms o c h =
    let (n, e, small) = internal-pos local_ms o in
    let same : to_nat (internal local_ms o) ≡ n = ap to_nat e in ground (arith, same)

settle-IsValid :
    (local_ms o : ℤ) (c : InternalClock) → Small o → IsValid c → IsValid (settle local_ms o c).0
unfolding settle
settle-IsValid local_ms o c so v =
    let (h, r, keeps) = observe_local-keeps local_ms c in
    let next : InternalClock → InternalClock =
      λ c1. record c1 { last_offset_ms = o; internal_high_water_ms = new_high local_ms o c } in
    subst (λ c1. IsValid (next c1)) (sym keeps)
      (record {
        network = v.network;
        waiting = v.waiting;
        samples = v.samples;
        last = so;
        high = new_high-le local_ms o c v.high;
        trusted = v.trusted;
      })

-- `now` never fails, and keeps what is valid.
pub now-some :
    (local_ms : ℤ) (c : InternalClock)
    → IsValid c
    → (c' : InternalClock) × (t : ℤ) × (now local_ms c ≡ some (c', t)) × IsValid c'
unfolding now
now-some local_ms c v =
    let (o, e, so) = effective_offset_bound local_ms c v in
    (
      (settle local_ms o c).0,
      (settle local_ms o c).1,
      rw (e, now) refl,
      settle-IsValid local_ms o c so v,
    )

-- The calls of the clock.
pub data ClockCall : Type 0 where
  restores : ℕ → ClockCall
  trusts distrusts : Bytes → ClockCall
  syncs : ℕ → ℤ → ℤ → ClockCall
  exchanges : Bytes → ℤ → ℤ → ℤ → ℤ → ClockCall
  reads : ℤ → ClockCall

abbrev state_of : InternalClock → Option (InternalClock × ℤ) → InternalClock
state_of c none = c
state_of c (some (c', t)) = c'

pub step : ClockCall → InternalClock → InternalClock
step (restores p) c = restore_high_water p c
step (trusts peer) c = trust_peer peer c
step (distrusts peer) c = distrust_peer peer c
step (syncs s l n) c = on_network_sync s l n c
step (exchanges peer t1 t2 t3 t4) c = (on_peer_exchange peer t1 t2 t3 t4 c).0
step (reads l) c = state_of c (now l c)

step-IsValid : (k : ClockCall) (c : InternalClock) → IsValid c → IsValid (step k c)
unfolding step
step-IsValid (restores p) c v = restore_high_water-IsValid p c v
step-IsValid (trusts peer) c v = trust-IsValid peer c v
step-IsValid (distrusts peer) c v = distrust-IsValid peer c v
step-IsValid (syncs s l n) c v = on_network_sync-IsValid s l n c v
step-IsValid (exchanges peer t1 t2 t3 t4) c v = on_peer_exchange-IsValid peer t1 t2 t3 t4 c v
step-IsValid (reads l) c v = let (c', t, e, v') = now-some l c v in rw (ap (state_of c) e) v'

pub run : List ClockCall → InternalClock → InternalClock
run [] c = c
run (k ∷ ks) c = run ks (step k c)

-- From a valid state, through any calls of the clock, all offsets stay within a day, only trusted
-- peers have samples, and the high water fits an `i64`.
pub calls-IsValid : (ks : List ClockCall) (c : InternalClock) → IsValid c → IsValid (run ks c)
unfolding run
calls-IsValid [] c v = v
calls-IsValid (k ∷ ks) c v = calls-IsValid ks (step k c) (step-IsValid k c v)
