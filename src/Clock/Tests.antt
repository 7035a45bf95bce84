-- ===== src/Clock/Tests.antt =====
-- The theorems on the clock at concrete times.
use mesui.Prelude.{
  ℕ, ◌≡◌, ◌⊎◌, refl, true, some, List, [], ◌∷◌, Bytes, replicate, All, arith, retain,
}
use mesui.Prelude.Sort.{sort, insert_sorted}
use mesui.Prelude.Integers.{
  ℤ, pos, lez, ◌+ℤ◌, ◌-ℤ◌, negate, clamp, max_int, saturating_plus, saturating_minus, wrap, abs,
  half,
}
use mesui.Clock.{
  InternalClock, PeerSample, new, on_network_sync, cross_check, network_offset, fresh_offsets, scan,
  best_run, peak_cluster, effective_offset, observe_local, new_high, settle, now,
}
use mesui.Clock.Network.{Checked, adoption-Checked}
use mesui.Clock.Bounds.{Small, IsValid, new-IsValid}
use mesui.Clock.Offset.{ClockCall, restores, trusts, syncs, exchanges, reads, run, calls-IsValid}
use mesui.Clock.Monotone.{now_never_falls}

abbrev peer : Bytes
peer = replicate 32 1

abbrev calls : List ClockCall
calls =
    restores 1_000
    ∷ trusts peer
    ∷ exchanges peer (pos 0) (pos 5_100) (pos 5_200) (pos 300)
    ∷ syncs 1 (pos 10_000) (pos 12_000)
    ∷ syncs 2 (pos 10_100) (pos 12_200)
    ∷ reads (pos 20_000)
    ∷ []

calls-IsValid_example : IsValid (run calls new)
calls-IsValid_example = calls-IsValid calls new new-IsValid

abbrev waiting : InternalClock
waiting = record new { pending_network = some (1, pos 1_000) }

adopted :
    (on_network_sync 2 (pos 10_000_000) (pos 10_002_000) waiting).network_offset_ms
    ≡ some (pos 1_500)
unfolding on_network_sync cross_check network_offset clamp saturating_minus lez abs wrap half ◌+ℤ◌
    ◌-ℤ◌ negate
adopted = refl

adoption-Checked_example :
    (waiting.network_offset_ms ≡ some (pos 1_500))
    ⊎ Checked 2 (pos 10_000_000) (pos 10_002_000) waiting (pos 1_500)
adoption-Checked_example =
    adoption-Checked 2 (pos 10_000_000) (pos 10_002_000) (pos 1_500) waiting adopted

own_pending : (s : ℕ) (p : ℤ) → waiting.pending_network ≡ some (s, p) → s ≡ 1
own_pending s p e = cc

abbrev sample : ℕ → PeerSample
sample n = record { offset_ms = pos n; at_local_ms = pos 100 }

-- Three peers that agree, and one that does not.
abbrev met : InternalClock
met = record new {
  peer_samples =
      (replicate 32 1, sample 5_200)
      ∷ (replicate 32 2, sample 900_000)
      ∷ (replicate 32 3, sample 5_000)
      ∷ (replicate 32 4, sample 5_100)
      ∷ [];
}

abbrev agreeing : List ℤ
agreeing = pos 5_000 ∷ pos 5_100 ∷ pos 5_200 ∷ []

found : peak_cluster (pos 200) met ≡ some agreeing
unfolding peak_cluster fresh_offsets best_run scan sort insert_sorted retain lez ◌+ℤ◌ ◌-ℤ◌ negate
    wrap
found = refl

All-Small_samples : All Small (fresh_offsets (pos 200) met.peer_samples)
unfolding fresh_offsets retain lez ◌+ℤ◌ ◌-ℤ◌ negate wrap
All-Small_samples = (omega arith, (omega arith, (omega arith, (omega arith, tt))))

abbrev started : InternalClock
started = record new { local_high_water_ms = pos 1_000_000; internal_high_water_ms = 1_000_000 }

reads_first : now (pos 1_000_000) new ≡ some (started, pos 1_000_000)
unfolding now settle observe_local new_high effective_offset peak_cluster fresh_offsets best_run
    scan sort retain lez ◌+ℤ◌ ◌-ℤ◌ negate wrap clamp max_int saturating_plus saturating_minus
reads_first = refl

offset_stays : effective_offset (pos 1) started ≡ some started.last_offset_ms
unfolding effective_offset peak_cluster fresh_offsets best_run scan sort retain lez ◌+ℤ◌ ◌-ℤ◌ negate
    wrap
offset_stays = refl

-- The system clock was set back.
abbrev set_back : InternalClock
set_back = record started { rollback_detected = true }

reads_second : now (pos 1) started ≡ some (set_back, pos 1_000_000)
unfolding now settle observe_local new_high effective_offset peak_cluster fresh_offsets best_run
    scan sort retain lez ◌+ℤ◌ ◌-ℤ◌ negate wrap clamp max_int saturating_plus saturating_minus
reads_second = refl

now_never_falls_example : lez (pos 1_000_000) (pos 1_000_000) ≡ true
now_never_falls_example =
    now_never_falls (pos 1_000_000) (pos 1) (pos 1_000_000) (pos 1_000_000) new started set_back
      new-IsValid reads_first offset_stays reads_second
