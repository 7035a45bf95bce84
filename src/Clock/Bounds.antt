-- ===== src/Clock/Bounds.antt =====
-- clock.rs: no call moves the clock by more than a day, and samples are of trusted peers only.
use mesui.Prelude.{
  ℕ, ◌≤◌, ◌≡◌, refl, ap, subst, true, Option, none, some, arith, All, Bool-cases, inl, inr, Bytes,
  i64_max, bytes_eq_iff, ◌⊎◌, ◌==◌,
}
use mesui.Prelude.Map.{get, contains_key, insert, All-insert, All-remove, get-insert, get-remove}
use mesui.Prelude.Integers.{
  ℤ, Within, clamp-Within, half-Within, half, saturating_plus, saturating_minus,
}
use mesui.Clock.{
  InternalClock, PeerSample, max_correction_ms, new, restore_high_water, trust_peer, distrust_peer,
  is_trusted, cross_check, network_offset, on_second, on_network_sync, peer_offset,
  on_peer_exchange,
}
use mesui.Clock.Network.{mean, cross_check-cases}

abbrev pub Small : ℤ → Type 0
Small = Within max_correction_ms

abbrev pub SmallSample : Bytes × PeerSample → Type 0
SmallSample e = Small e.1.offset_ms

-- All offsets are within a day, the samples are of trusted peers, and the high water fits an `i64`.
pub record IsValid (c : InternalClock) : Type 0 where
  pub network : (o : ℤ) → c.network_offset_ms ≡ some o → Small o
  pub waiting : (s : ℕ) (o : ℤ) → c.pending_network ≡ some (s, o) → Small o
  pub samples : All SmallSample c.peer_samples
  pub last : Small c.last_offset_ms
  pub high : c.internal_high_water_ms ≤ i64_max
  pub trusted :
      (k : Bytes) (s : PeerSample)
      → get k c.peer_samples ≡ some s
      → contains_key k c.trusted_peers ≡ true

pub new-IsValid : IsValid new
unfolding get
new-IsValid = record {
  network = λ o e. cc;
  waiting = λ s o e. cc;
  samples = tt;
  last = omega arith;
  high = omega arith;
  trusted = λ k s e. cc;
}

pub restore_high_water-IsValid :
    (p : ℕ) (c : InternalClock) → IsValid c → IsValid (restore_high_water p c)
unfolding restore_high_water
restore_high_water-IsValid p c v = record {
  network = v.network;
  waiting = v.waiting;
  samples = v.samples;
  last = v.last;
  high = omega (arith, v.high);
  trusted = v.trusted;
}

pub trust-IsValid : (peer : Bytes) (c : InternalClock) → IsValid c → IsValid (trust_peer peer c)
unfolding trust_peer
trust-IsValid peer c v = record {
  network = v.network;
  waiting = v.waiting;
  samples = v.samples;
  last = v.last;
  high = v.high;
  trusted = λ k s e. ground (arith, get-insert k peer tt c.trusted_peers, v.trusted k s e);
}

pub distrust-IsValid :
    (peer : Bytes) (c : InternalClock) → IsValid c → IsValid (distrust_peer peer c)
unfolding distrust_peer
distrust-IsValid peer c v = record {
  network = v.network;
  waiting = v.waiting;
  samples = All-remove SmallSample peer c.peer_samples v.samples;
  last = v.last;
  high = v.high;
  trusted = λ k s e.
      ground
        (arith, get-remove k peer c.trusted_peers, get-remove k peer c.peer_samples, v.trusted k s);
}

cross_check-IsValid :
    (l p o : ℤ) (c : InternalClock) → Small p → Small o → IsValid c → IsValid (cross_check l p o c)
cross_check-IsValid l p o c sp so v = elim (cross_check-cases l p o c) [
  | inl gone ↦ rw gone (record {
    network = λ x e. cc;
    waiting = v.waiting;
    samples = v.samples;
    last = v.last;
    high = v.high;
    trusted = v.trusted;
  })
  | inr (agreed, took) ↦ rw took (record {
    network = λ x e.
        let same : mean p o ≡ x = cc in subst Small same (half-Within max_correction_ms p o sp so);
    waiting = v.waiting;
    samples = v.samples;
    last = v.last;
    high = v.high;
    trusted = v.trusted;
  })
]

network_offset-Small : (l n : ℤ) → Small (network_offset l n)
unfolding network_offset
network_offset-Small l n = clamp-Within max_correction_ms (saturating_minus n l)

waits-IsValid :
    (s : ℕ) (o : ℤ) (c : InternalClock)
    → Small o
    → IsValid c
    → IsValid (record c { pending_network = some (s, o) })
waits-IsValid s o c so v = record {
  network = v.network;
  waiting = λ s' o' e. let same : o ≡ o' = cc in subst Small same so;
  samples = v.samples;
  last = v.last;
  high = v.high;
  trusted = v.trusted;
}

pub on_network_sync-IsValid :
    (s : ℕ) (l n : ℤ) (c : InternalClock) → IsValid c → IsValid (on_network_sync s l n c)
unfolding on_network_sync
on_network_sync-IsValid s l n c v = go c.pending_network refl
  where
    taken : InternalClock
    taken = record c { pending_network = none }

    taken-IsValid : IsValid taken
    taken-IsValid = record {
      network = v.network;
      waiting = λ s' o e. cc;
      samples = v.samples;
      last = v.last;
      high = v.high;
      trusted = v.trusted;
    }

    go :
        (w : Option (ℕ × ℤ))
        → c.pending_network ≡ w
        → IsValid (on_second s l (network_offset l n) w taken)
    go none e = waits-IsValid s (network_offset l n) taken (network_offset-Small l n) taken-IsValid
    go (some (first, p)) e = elim (Bool-cases (first == s)) [
      | inl t ↦
          rw (t, on_second)
            (waits-IsValid s (network_offset l n) taken (network_offset-Small l n) taken-IsValid)
      | inr f ↦
          rw (f, on_second)
            (cross_check-IsValid l p (network_offset l n) taken (v.waiting first p e)
              (network_offset-Small l n) taken-IsValid)
    ]

peer_offset-Small : (t1 t2 t3 t4 : ℤ) → Small (peer_offset t1 t2 t3 t4)
unfolding peer_offset
peer_offset-Small t1 t2 t3 t4 =
    clamp-Within max_correction_ms
      (half (saturating_plus (saturating_minus t2 t1) (saturating_minus t3 t4)))

-- A sample is taken only from a trusted peer, and otherwise nothing changes.
pub on_peer_exchange-cases :
    (peer : Bytes) (t1 t2 t3 t4 : ℤ) (c : InternalClock)
    → ((on_peer_exchange peer t1 t2 t3 t4 c).0 ≡ c)
      ⊎ (is_trusted peer c ≡ true)
        × ((on_peer_exchange peer t1 t2 t3 t4 c).0 ≡ record c {
          peer_samples =
              insert peer
                (record { offset_ms = peer_offset t1 t2 t3 t4; at_local_ms = t4 })
                c.peer_samples;
        })
unfolding on_peer_exchange
on_peer_exchange-cases peer t1 t2 t3 t4 c = ground arith

pub on_peer_exchange-IsValid :
    (peer : Bytes) (t1 t2 t3 t4 : ℤ) (c : InternalClock)
    → IsValid c
    → IsValid (on_peer_exchange peer t1 t2 t3 t4 c).0
on_peer_exchange-IsValid peer t1 t2 t3 t4 c v = elim (on_peer_exchange-cases peer t1 t2 t3 t4 c) [
  | inl same ↦ rw same v
  | inr (t, took) ↦
      let sample : PeerSample = record { offset_ms = peer_offset t1 t2 t3 t4; at_local_ms = t4 } in
      rw took (record {
        network = v.network;
        waiting = v.waiting;
        samples =
            All-insert SmallSample peer sample c.peer_samples (peer_offset-Small t1 t2 t3 t4)
              v.samples;
        last = v.last;
        high = v.high;
        trusted = λ k s e. ground (
          arith,
          get-insert k peer sample c.peer_samples,
          v.trusted k s,
          bytes_eq_iff peer k,
          (λ (q : peer ≡ k). ap (λ z. contains_key z c.trusted_peers) q),
        );
      })
]
