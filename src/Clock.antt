-- ===== src/Clock.antt =====
-- crates/core/src/clock.rs: the internal clock, which corrects the system's by an offset and never
-- runs backwards while the offset stays. Times are `i64` values; a panic is `none`.
mod State
pub mod Cluster
pub mod Bounds
pub mod Offset
pub mod Network
pub mod Monotone
mod Tests
use mesui.Prelude.{
  ℕ, ◌+◌, ◌%◌, ◌^◌, Bool, true, false, not, ◌&&◌, ◌||◌, Option, none, some, List, [], ◌∷◌, ◌++◌,
  Bytes, ltb, leb, ◌==◌, if◌then◌else◌, length, retain, map, min, max, Result, get_elem?, ◌/◌,
  i64_max, ◌-◌,
}
use mesui.Prelude.Map.{Map, contains_key, insert, remove}
use mesui.Prelude.Sort.{sort}
use mesui.Prelude.Integers.{
  ℤ, pos, negsuc, ◌+ℤ◌, ◌-ℤ◌, lez, ltz, clamp, max_int, saturating_plus, saturating_minus, wrap,
  abs, half, opposite,
}
pub use State.{
  max_correction_ms, network_fresh_ms, max_rtt_ms, cluster_tolerance_ms, peer_quorum,
  cross_check_tolerance_ms, network_adoption_cap_ms, network_adoption_cooldown_ms, long_ago, Source,
  unsynced, network, peers, PeerSample, ClockError, rtt_too_large, clamped, untrusted_peer,
  InternalClock, new, max_plausible_ms, is_trusted, longer, fresh_network, median, peers_offset,
  offset_or,
}
unfoldable pub use State.{
  restore_high_water, trust_peer, distrust_peer, scan, fresh_offsets, best_run, peak_cluster,
  source, effective_offset,
}

abbrev pub discard : InternalClock → InternalClock
discard c = record c { network_offset_ms = none; network_fresh_until = long_ago }

abbrev pub adopt : ℤ → ℤ → InternalClock → InternalClock
adopt local_ms adopted c = record c {
  network_offset_ms = some adopted;
  network_fresh_until = wrap (local_ms +ℤ pos network_fresh_ms);
  last_network_adopted_at = local_ms;
}

-- The second source: its offset against that of the first, `prev`.
unfoldable pub cross_check : ℤ → ℤ → ℤ → InternalClock → InternalClock
unfolding lez abs wrap half ◌+ℤ◌ ◌-ℤ◌ saturating_minus
cross_check local_ms prev offset c =
    let adopted = half (wrap (prev +ℤ offset)) in
    let delta = saturating_minus adopted c.last_offset_ms in
    let cooling =
      ltz (saturating_minus local_ms c.last_network_adopted_at)
        (pos network_adoption_cooldown_ms) in
    if lez (abs (wrap (prev -ℤ offset))) (pos cross_check_tolerance_ms)
    then (if ltz (pos network_adoption_cap_ms) (abs delta) || cooling
        then discard c
        else adopt local_ms adopted c)
    else discard c

unfoldable pub network_offset : ℤ → ℤ → ℤ
unfolding clamp saturating_minus
network_offset local_ms network_ms =
    clamp (opposite max_correction_ms) (pos max_correction_ms)
      (saturating_minus network_ms local_ms)

-- By what `pending_network.take()` gives.
abbrev pub on_second : ℕ → ℤ → ℤ → Option (ℕ × ℤ) → InternalClock → InternalClock
on_second source_id local_ms offset none c = record c { pending_network = some (source_id, offset) }
on_second source_id local_ms offset (some (prev_source, prev)) c =
    if prev_source == source_id
    then record c { pending_network = some (source_id, offset) }
    else cross_check local_ms prev offset c

unfoldable pub on_network_sync : ℕ → ℤ → ℤ → InternalClock → InternalClock
unfolding cross_check network_offset
on_network_sync source_id local_ms network_ms c =
    on_second source_id local_ms (network_offset local_ms network_ms) c.pending_network
      (record c { pending_network = none })

pub data Exchange : Type 0 where
  accepted : ℤ → Exchange
  refused : ClockError → Exchange

abbrev pub round_trip : ℤ → ℤ → ℤ → ℤ → ℤ
round_trip t1 t2 t3 t4 = saturating_minus (saturating_minus t4 t1) (saturating_minus t3 t2)

unfoldable pub peer_offset : ℤ → ℤ → ℤ → ℤ → ℤ
unfolding clamp half saturating_minus saturating_plus
peer_offset t1 t2 t3 t4 =
    clamp (opposite max_correction_ms) (pos max_correction_ms)
      (half (saturating_plus (saturating_minus t2 t1) (saturating_minus t3 t4)))

unfoldable pub on_peer_exchange : Bytes → ℤ → ℤ → ℤ → ℤ → InternalClock → InternalClock × Exchange
unfolding peer_offset lez saturating_minus
on_peer_exchange peer t1 t2 t3 t4 c =
    let rtt = round_trip t1 t2 t3 t4 in
    let offset = peer_offset t1 t2 t3 t4 in
    if not (is_trusted peer c)
    then (c, refused untrusted_peer)
    else (if ltz t3 t2
        then (c, refused rtt_too_large)
        else (if not (lez (pos 0) rtt && lez rtt (pos max_rtt_ms))
            then (c, refused rtt_too_large)
            else (
              record c {
                peer_samples =
                    insert peer (record { offset_ms = offset; at_local_ms = t4 }) c.peer_samples;
              },
              accepted offset,
            )))

-- `as u64` of an integer that is not negative, and `as i64` back.
abbrev pub to_nat : ℤ → ℕ
to_nat (pos a) = a
to_nat (negsuc a) = 2 ^ 64 - 1 - a

-- The two tests for a rollback of the local clock.
unfoldable pub observe_local : ℤ → InternalClock → InternalClock
unfolding lez saturating_minus
observe_local local_ms c =
    let fell = ltz local_ms (saturating_minus c.local_high_water_ms (pos 60_000)) in
    if ltz c.local_high_water_ms local_ms
    then record c { local_high_water_ms = local_ms; rollback_detected = false }
    else record c { rollback_detected = c.rollback_detected || fell }

-- `local_ms.saturating_add(offset).max(0)`.
abbrev pub internal : ℤ → ℤ → ℤ
internal local_ms offset = max_int (saturating_plus local_ms offset) (pos 0)

-- The high water starts anew when the offset changes.
unfoldable pub new_high : ℤ → ℤ → InternalClock → ℕ
unfolding lez max_int saturating_plus
new_high local_ms offset c =
    let n = to_nat (internal local_ms offset) in
    if lez offset c.last_offset_ms && lez c.last_offset_ms offset
    then max c.internal_high_water_ms n
    else n

-- The new state and the result, for the offset in force.
unfoldable pub settle : ℤ → ℤ → InternalClock → InternalClock × ℤ
unfolding max_int saturating_plus wrap observe_local new_high
settle local_ms offset c =
    let high = new_high local_ms offset c in
    let c1 = observe_local local_ms c in
    (
      record c1 { last_offset_ms = offset; internal_high_water_ms = high },
      if c1.rollback_detected
          then wrap (pos high)
          else max_int (internal local_ms offset) (wrap (pos high)),
    )

unfoldable pub now : ℤ → InternalClock → Option (InternalClock × ℤ)
unfolding effective_offset settle
now local_ms c = elim (effective_offset local_ms c) [
  | none ↦ none
  | some offset ↦ some (settle local_ms offset c)
]
