-- ===== src/Queue/Calls.antt =====
-- queue.rs: what every call of the engine has in common, and chains of calls.
use Prim.Native.String.{String}
use mesui.Prelude.{◌≡◌, refl, List, [], ◌∷◌, Option, none, some, Result, ok, err, db, ap, arith}
use mesui.Queue.{Db, Action, call, after, ◌>>=◌}

-- The two tables of a database are those of another.
pub record SameTables (d d' : Db) : Type 0 where
  pub outbox : d'.outbox ≡ d.outbox
  pub seen : d'.inbox_seen ≡ d.inbox_seen

-- What holds of a fault and of the run on the same tables holds of a call.
pub call_cases :
    {A : Type 0} (P : Db × Result A → Type 0) (run : Action A) (d : Db)
    → ((d' : Db) (e : String) → SameTables d d' → P (d', err (db e)))
    → ((d' : Db) → SameTables d d' → P (run d'))
    → P (call run d)
unfolding call
call_cases {A} P run d fault runs = go d.faults refl
  where
    go : (fs : List (Option String)) → d.faults ≡ fs → P (call run d)
    go [] e = rw (e, call) (runs d (record { outbox = refl; seen = refl }))
    go (none ∷ fs) e =
        rw (e, call) (runs (record d { faults = fs }) (record { outbox = refl; seen = refl }))
    go (some m ∷ fs) e =
        rw (e, call) (fault (record d { faults = fs }) m (record { outbox = refl; seen = refl }))

-- A call that succeeds is its run, on the same tables.
pub call_ok :
    {A : Type 0} (run : Action A) (d : Db) {a : A}
    → (call run d).1 ≡ ok a
    → (d' : Db) × SameTables d d' × (call run d ≡ run d')
call_ok {A} run d {a} h =
    call_cases (λ r. r.1 ≡ ok a → (d' : Db) × SameTables d d' × (r ≡ run d')) run d (λ d' e s k. cc)
      (λ d' s k. (d', s, refl)) h

-- A chain of two actions that succeeds is the second, from where the first succeeded.
pub >>=-ok :
    {A B : Type 0} (m : Action A) (f : A → Action B) (d : Db) {b : B}
    → ((m >>= f) d).1 ≡ ok b
    → (a : A) × (d' : Db) × (m d ≡ (d', ok a)) × ((m >>= f) d ≡ f a d')
>>=-ok {A} {B} m f d {b} h = go (m d) refl h
  where
    go :
        (r : Db × Result A)
        → m d ≡ r
        → ((m >>= f) d).1 ≡ ok b
        → (a : A) × (d' : Db) × (m d ≡ (d', ok a)) × ((m >>= f) d ≡ f a d')
    go (d', ok a) e h = (a, d', e, ap (after f) e)
    go (d', err x) e h = ground (arith, ap (λ x. (after f x).1) e)

-- What both actions keep, their chain keeps.
pub >>=-keeps :
    {A B : Type 0} (P : Db → Type 0) (m : Action A) (f : A → Action B) (d : Db)
    → P (m d).0
    → ((a : A) (d' : Db) → P d' → P (f a d').0)
    → P ((m >>= f) d).0
>>=-keeps {A} {B} P m f d p keeps = go (m d) p
  where
    go : (r : Db × Result A) → P r.0 → P (after f r).0
    go (d', ok a) p = keeps a d' p
    go (d', err e) p = p
