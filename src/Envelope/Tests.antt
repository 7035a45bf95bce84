-- ===== src/Envelope/Tests.antt =====
-- The theorems on frames, envelopes and the set of seen ids at concrete inputs.
use mesui.Prelude.{
  not, ◌+◌, ◌≤◌, ◌<◌, ◌≡◌, inl, refl, none, some, List, [], ◌∷◌, ◌++◌, Bytes, replicate, length,
  take, drop, All, arith, ok, bytes_dec, be_bytes, from_be, done, failed,
}
use mesui.Prelude.Map.{get, insert, remove, contains_key}
use mesui.Envelope.{
  Envelope, Codec, text, frame, unframe, max_frame_size, DedupSet, new, evict, check_and_insert,
}
use mesui.Envelope.Frame.{WellAddressed, unframe-frame, unframe_partial, frame-unframe}
use mesui.Envelope.Evict.{Nodup, contains}
use mesui.Envelope.Dedup.{IsValid, new-IsValid, window, run, run-window}

abbrev hi : Bytes
hi = 104 ∷ 105 ∷ []

abbrev hi_frame : Bytes
hi_frame = 0 ∷ 0 ∷ 0 ∷ 2 ∷ 104 ∷ 105 ∷ []

framed_hi : frame hi ≡ some hi_frame
unfolding frame be_bytes
framed_hi = refl

unframe-frame_example :
    (unframe (hi_frame ++ 9 ∷ []) ≡ ok (some (hi, 4 + length hi)))
    × (drop (4 + length hi) (hi_frame ++ 9 ∷ []) ≡ 9 ∷ [])
unframe-frame_example = unframe-frame hi (9 ∷ []) hi_frame (omega arith) framed_hi

unframe_partial_example : unframe (take 5 hi_frame) ≡ ok none
unframe_partial_example = unframe_partial hi hi_frame 5 (omega arith) framed_hi (omega arith)

read_hi : unframe (hi_frame ++ 9 ∷ []) ≡ ok (some (hi, 6))
unfolding unframe from_be
read_hi = refl

hi_bytes : All (λ b. b < 256) (hi_frame ++ 9 ∷ [])
hi_bytes = (
  omega arith,
  (omega arith, (omega arith, (omega arith, (omega arith, (omega arith, (omega arith, tt)))))),
)

frame-unframe_example :
    (frame hi ≡ some (take 6 (hi_frame ++ 9 ∷ [])))
    × (6 ≤ length (hi_frame ++ 9 ∷ []))
    × (length hi ≤ max_frame_size)
frame-unframe_example = frame-unframe (hi_frame ++ 9 ∷ []) hi 6 hi_bytes read_hi

abbrev letter : Envelope
letter = record {
  msg_id = replicate 16 1;
  sender = replicate 32 2;
  recipient = some (replicate 32 3);
  group = none;
  kind = text;
  body = hi;
  sent_at_ms = 1_000_000;
  ttl_hops = 3;
}

-- A codec that decodes everything to one envelope.
abbrev codec : Codec Envelope
codec = record { into_writer = λ e. failed "full"; from_reader = λ b. done letter }

letter_addressed : WellAddressed letter
letter_addressed = inl refl

abbrev small : DedupSet
small = new 2

small-IsValid : IsValid small
small-IsValid = new-IsValid 2

abbrev stream : List Bytes
stream = (1 ∷ []) ∷ (2 ∷ []) ∷ (1 ∷ []) ∷ (3 ∷ []) ∷ (1 ∷ []) ∷ []

run-window_example :
    ((run small stream).0.order ≡ window small stream)
    × Nodup (window small stream)
    × ((id : Bytes) → contains_key id (run small stream).0.seen ≡ contains id (window small stream))
    × ((id : Bytes)
        → (check_and_insert (run small stream).0 id).1 ≡ not (contains id (window small stream)))
run-window_example = run-window small stream small-IsValid

-- The repeated id is refused while it is in the window, and let through after it has left.
window_runs : (run small stream).1 ≡ (1 ∷ []) ∷ (2 ∷ []) ∷ (3 ∷ []) ∷ (1 ∷ []) ∷ []
unfolding run check_and_insert evict insert remove get new bytes_dec
window_runs = refl
