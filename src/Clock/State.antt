-- ===== src/Clock/State.antt =====
-- clock.rs: the state of the clock, the trusted peers, and the offset in force.
use mesui.Prelude.{
  ℕ, Bool, false, Option, none, some, List, [], ◌∷◌, ◌++◌, Bytes, ltb, leb, if◌then◌else◌, length,
  retain, map, min, max, get_elem?, ◌/◌,
}
use mesui.Prelude.Map.{Map, contains_key, insert, remove}
use mesui.Prelude.Sort.{sort}
use mesui.Prelude.Integers.{ℤ, pos, negsuc, ◌-ℤ◌, lez, wrap}

abbrev pub max_correction_ms : ℕ
max_correction_ms = 86_400_000

abbrev pub network_fresh_ms : ℕ
network_fresh_ms = 21_600_000

abbrev pub max_rtt_ms : ℕ
max_rtt_ms = 5_000

abbrev pub cluster_tolerance_ms : ℕ
cluster_tolerance_ms = 60_000

abbrev pub peer_quorum : ℕ
peer_quorum = 3

abbrev pub cross_check_tolerance_ms : ℕ
cross_check_tolerance_ms = 5_000

abbrev pub network_adoption_cap_ms : ℕ
network_adoption_cap_ms = 120_000

abbrev pub network_adoption_cooldown_ms : ℕ
network_adoption_cooldown_ms = 600_000

-- `i64::MIN / 2`.
abbrev pub long_ago : ℤ
long_ago = negsuc 4_611_686_018_427_387_903

pub data Source : Type 0 where
  unsynced network peers : Source

pub record PeerSample : Type 0 where
  pub offset_ms : ℤ
  pub at_local_ms : ℤ

pub data ClockError : Type 0 where
  rtt_too_large clamped untrusted_peer : ClockError

pub record InternalClock : Type 0 where
  pub network_offset_ms : Option ℤ
  pub network_fresh_until : ℤ
  pub pending_network : Option (ℕ × ℤ)
  pub last_network_adopted_at : ℤ
  pub trusted_peers : Map (Unit {0})
  pub peer_samples : Map PeerSample
  pub internal_high_water_ms : ℕ
  pub local_high_water_ms : ℤ
  pub last_offset_ms : ℤ
  pub rollback_detected : Bool

abbrev pub new : InternalClock
new = record {
  network_offset_ms = none;
  network_fresh_until = long_ago;
  pending_network = none;
  last_network_adopted_at = long_ago;
  trusted_peers = [];
  peer_samples = [];
  internal_high_water_ms = 0;
  local_high_water_ms = long_ago;
  last_offset_ms = pos 0;
  rollback_detected = false;
}

abbrev pub max_plausible_ms : ℕ
max_plausible_ms = 4_102_444_800_000

unfoldable pub restore_high_water : ℕ → InternalClock → InternalClock
restore_high_water persisted_ms c = record c {
  internal_high_water_ms = max c.internal_high_water_ms (min persisted_ms max_plausible_ms);
}

unfoldable pub trust_peer : Bytes → InternalClock → InternalClock
trust_peer peer c = record c { trusted_peers = insert peer tt c.trusted_peers }

unfoldable pub distrust_peer : Bytes → InternalClock → InternalClock
distrust_peer peer c = record c {
  trusted_peers = remove peer c.trusted_peers;
  peer_samples = remove peer c.peer_samples;
}

abbrev pub is_trusted : Bytes → InternalClock → Bool
is_trusted peer c = contains_key peer c.trusted_peers

-- The lists of offsets of `peak_cluster`: the longer of two, the first when they are as long.
abbrev pub longer : List ℤ → List ℤ → List ℤ
longer best run = if ltb (length best) (length run) then run else best

-- The loop of `peak_cluster` over the windows: the last offset seen, the best run, the current run.
unfoldable pub scan : ℤ → List ℤ → List ℤ → List ℤ → List ℤ
unfolding lez ◌-ℤ◌ wrap
scan last best run [] = longer best run
scan last best run (x ∷ xs) =
    let joined = scan x best (run ++ x ∷ []) xs in
    let split = scan x (longer best run) (x ∷ []) xs in
    if lez (wrap (x -ℤ last)) (pos cluster_tolerance_ms) then joined else split

unfoldable pub fresh_offsets : ℤ → Map PeerSample → List ℤ
unfolding lez ◌-ℤ◌ wrap
fresh_offsets local_ms samples =
    let fresh_cut = wrap (local_ms -ℤ pos 1_800_000) in
    map (λ (e : Bytes × PeerSample). e.1.offset_ms)
      (retain (λ (e : Bytes × PeerSample). lez fresh_cut e.1.at_local_ms) samples)

-- The scan of the sorted offsets, of which there is one at least.
unfoldable pub best_run : List ℤ → List ℤ
unfolding scan
best_run [] = []
best_run (x ∷ xs) = scan x [] (x ∷ []) xs

unfoldable pub peak_cluster : ℤ → InternalClock → Option (List ℤ)
unfolding fresh_offsets best_run
peak_cluster local_ms c =
    let offsets = fresh_offsets local_ms c.peer_samples in
    let best = best_run (sort lez offsets) in
    if ltb (length offsets) peer_quorum
    then none
    else (if leb peer_quorum (length best) then some best else none)

-- `network_offset_ms.filter(|_| local_ms <= network_fresh_until)`.
abbrev pub fresh_network : ℤ → InternalClock → Option ℤ
fresh_network local_ms c = if lez local_ms c.network_fresh_until then c.network_offset_ms else none

unfoldable pub source : ℤ → InternalClock → Source
unfolding peak_cluster
source local_ms c = elim (fresh_network local_ms c) [
  | some o ↦ network
  | none ↦ elim (peak_cluster local_ms c) [ some v ↦ peers | none ↦ unsynced ]
]

-- The middle of the sorted cluster; indexing past its end is a panic.
abbrev pub median : List ℤ → Option ℤ
median cluster = get_elem? (sort lez cluster) (length cluster / 2)

-- The offset without the network's: by what `peak_cluster` finds.
abbrev pub peers_offset : Option (List ℤ) → Option ℤ
peers_offset none = some (pos 0)
peers_offset (some cluster) = median cluster

abbrev pub offset_or : Option ℤ → Option ℤ → Option ℤ
offset_or (some o) rest = some o
offset_or none rest = rest

unfoldable pub effective_offset : ℤ → InternalClock → Option ℤ
unfolding peak_cluster
effective_offset local_ms c =
    offset_or (fresh_network local_ms c) (peers_offset (peak_cluster local_ms c))
