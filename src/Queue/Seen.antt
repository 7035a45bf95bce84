-- ===== src/Queue/Seen.antt =====
-- queue.rs, `record_seen` and `prune_seen`: a received id is new once.
use mesui.Prelude.{
  ℕ, ◌≤◌, ◌≡◌, refl, ◌∙◌, ◌≢◌, inl, inr, Bool, true, false, some, List, [], ◌∷◌, Bytes,
  bytes_eq_refl, arith, if◌then◌else◌, Result, ok, retain, length, ◌-◌, Option-cases,
}
use mesui.Prelude.Map.{get, contains_key, insert, get-insert, get-retain_kept}
use mesui.Queue.Calls.{call_cases}
use mesui.Queue.{Db, Action, clamp_ms, record_seen, prune_seen, stays}

abbrev Known : Bytes → ℕ → Db → Type 0
Known id x d = get id d.inbox_seen ≡ some x

-- Calls that touch the ledger.
pub data SeenCall : Type 0 where
  records : Bytes → ℕ → SeenCall
  prunes : ℕ → SeenCall

pub step : SeenCall → Db → Db
step (records id now_ms) d = (record_seen id now_ms d).0
step (prunes before_ms) d = (prune_seen before_ms d).0

pub run : List SeenCall → Db → Db
run [] d = d
run (c ∷ cs) d = run cs (step c d)

-- No prune reaches a record of the time `x`.
abbrev pub Spares : ℕ → List SeenCall → Type 0
Spares x [] = Unit
Spares x (records id now_ms ∷ cs) = Spares x cs
Spares x (prunes before_ms ∷ cs) = (before_ms ≤ x) × Spares x cs

abbrev ledger_step : Bytes → ℕ → Db → Db × Result Bool
ledger_step id now_ms d =
    if contains_key id d.inbox_seen
    then (d, ok false)
    else (record d { inbox_seen = insert id (clamp_ms now_ms) d.inbox_seen }, ok true)

ledger_step-Known :
    (id other : Bytes) (now_ms x : ℕ) (d : Db)
    → Known id x d
    → Known id x (ledger_step other now_ms d).0
ledger_step-Known id other now_ms x d known = elim (Option-cases (get other d.inbox_seen)) [
  | inl e ↦
      rw (e, ledger_step, contains_key)
        (get-insert id other (clamp_ms now_ms) d.inbox_seen ∙ ground (arith))
  | inr (v, e) ↦ rw (e, ledger_step, contains_key) known
]

record_seen-Known :
    (id other : Bytes) (now_ms x : ℕ) (d : Db)
    → Known id x d
    → Known id x (record_seen other now_ms d).0
unfolding record_seen
record_seen-Known id other now_ms x d known =
    call_cases (λ r. Known id x r.0) (ledger_step other now_ms) d (λ d' e s. rw s.seen known)
      (λ d' s. ledger_step-Known id other now_ms x d' (rw s.seen known))

abbrev pruned : ℕ → Action ℕ
pruned before_ms d =
    let kept = retain (stays before_ms) d.inbox_seen in
    (record d { inbox_seen = kept }, ok (length d.inbox_seen - length kept))

prune_seen-Known :
    (id : Bytes) (before_ms x : ℕ) (d : Db)
    → Known id x d
    → before_ms ≤ x
    → Known id x (prune_seen before_ms d).0
unfolding prune_seen
prune_seen-Known id before_ms x d known le =
    call_cases (λ r. Known id x r.0) (pruned before_ms) d (λ d' e s. rw s.seen known)
      (λ d' s.
        get-retain_kept (stays before_ms) id d'.inbox_seen x (rw s.seen known) (ground arith))

run-Known :
    (id : Bytes) (x : ℕ) (cs : List SeenCall) (d : Db)
    → Known id x d
    → Spares x cs
    → Known id x (run cs d)
unfolding run step
run-Known id x [] d known spares = known
run-Known id x (records other now_ms ∷ cs) d known spares =
    run-Known id x cs (step (records other now_ms) d) (record_seen-Known id other now_ms x d known)
      spares
run-Known id x (prunes before_ms ∷ cs) d known spares =
    run-Known id x cs (step (prunes before_ms) d) (prune_seen-Known id before_ms x d known spares.0)
      spares.1

ledger_step-false :
    (id : Bytes) (now_ms x : ℕ) (d : Db) → Known id x d → (ledger_step id now_ms d).1 ≡ ok false
ledger_step-false id now_ms x d known = rw (known, ledger_step, contains_key) refl

ledger_step-true :
    (id : Bytes) (now_ms : ℕ) (d : Db)
    → (ledger_step id now_ms d).1 ≡ ok true
    → Known id (clamp_ms now_ms) (ledger_step id now_ms d).0
ledger_step-true id now_ms d new = elim (Option-cases (get id d.inbox_seen)) [
  | inl e ↦
      rw (e, ledger_step, contains_key)
        (get-insert id id (clamp_ms now_ms) d.inbox_seen ∙ ground (arith, bytes_eq_refl id))
  | inr (v, e) ↦ ground (arith, ledger_step-false id now_ms v d e)
]

record_seen-true :
    (id : Bytes) (now_ms : ℕ) (d : Db)
    → (record_seen id now_ms d).1 ≡ ok true
    → Known id (clamp_ms now_ms) (record_seen id now_ms d).0
unfolding record_seen
record_seen-true id now_ms d =
    call_cases (λ r. r.1 ≡ ok true → Known id (clamp_ms now_ms) r.0) (ledger_step id now_ms) d
      (λ d' e s h. cc) (λ d' s. ledger_step-true id now_ms d')

record_seen-false :
    (id : Bytes) (now_ms x : ℕ) (d : Db) → Known id x d → (record_seen id now_ms d).1 ≢ ok true
unfolding record_seen
record_seen-false id now_ms x d known =
    call_cases (λ r. r.1 ≢ ok true) (ledger_step id now_ms) d (λ d' e s h. cc)
      (λ d' s h. ground (arith, ledger_step-false id now_ms x d' (rw s.seen known)))

-- After a message id was reported new at a time, no later call reports it new, whatever ids are
-- recorded, whatever prunes that stop at that time run, and whichever calls the engine refuses.
pub seen_once :
    (id : Bytes) (first again : ℕ) (cs : List SeenCall) (d : Db)
    → (record_seen id first d).1 ≡ ok true
    → Spares (clamp_ms first) cs
    → (record_seen id again (run cs (record_seen id first d).0)).1 ≢ ok true
seen_once id first again cs d new spares =
    record_seen-false id again (clamp_ms first) _
      (run-Known id (clamp_ms first) cs _ (record_seen-true id first d new) spares)
