-- ===== src/Signal/Keeps.antt =====
-- signal_store.rs: what an action leaves true, for predicates that do not look at the fault list.
use Prim.Native.String.{String}
use mesui.Prelude.{List, [], ◌∷◌, Option, none, some, Bytes}
use mesui.Signal.Records.{RecordCodec}
use mesui.Signal.Engine.{
  address_key, SignalResult, rejected, succeeded, Fault, poisoned, refused, SqlSignalStore, Action,
  after, ◌>>=◌, lift, with_faults, Statement, with_conn, with_db,
}

-- The predicates in question.
abbrev pub Faultless : (SqlSignalStore → Type 0) → Type 0
Faultless P = (fs : List (Option Fault)) (s : SqlSignalStore) → P s → P (with_faults fs s)

abbrev pub Keeps : (SqlSignalStore → Type 0) → {A : Type 0} → Action A → Type 0
Keeps P m = (s : SqlSignalStore) → P s → P (m s).0

-- A call leaves the store as it was, or as the statement makes it, with a shorter fault list.
module _ (Q : SqlSignalStore → Type 0) (s : SqlSignalStore)
    (same : (fs : List (Option Fault)) → Q (with_faults fs s)) where
  pub with_conn_post :
      {A : Type 0} (method : String) (run : Statement A)
      → ((fs : List (Option Fault)) → Q (run (with_faults fs s)).0)
      → Q (with_conn method run s).0
  unfolding with_conn
  with_conn_post method run k = go s.faults
    where
      go : (faults : List (Option Fault)) → Q (with_conn method run (with_faults faults s)).0
      go [] = k []
      go (none ∷ fs) = k fs
      go (some poisoned ∷ fs) = same fs
      go (some (refused debug display) ∷ fs) = same fs

  pub with_db_post :
      {A : Type 0} (run : SqlSignalStore → SqlSignalStore × A)
      → ((fs : List (Option Fault)) → Q (run (with_faults fs s)).0)
      → Q (with_db run s).0
  unfolding with_db
  with_db_post run k = go s.faults
    where
      go : (faults : List (Option Fault)) → Q (with_db run (with_faults faults s)).0
      go [] = k []
      go (none ∷ fs) = k fs
      go (some poisoned ∷ fs) = same fs
      go (some (refused debug display) ∷ fs) = same fs

module _ (P : SqlSignalStore → Type 0) (faultless : Faultless P) where
  pub with_conn-Keeps :
      {A : Type 0} (method : String) (run : Statement A)
      → ((s : SqlSignalStore) → P s → P (run s).0)
      → Keeps P (with_conn method run)
  with_conn-Keeps method run k s p =
      with_conn_post P s (λ fs. faultless fs s p) method run
        (λ fs. k (with_faults fs s) (faultless fs s p))

  pub with_db-Keeps :
      {A : Type 0} (run : SqlSignalStore → SqlSignalStore × A)
      → ((s : SqlSignalStore) → P s → P (run s).0)
      → (s : SqlSignalStore) → P s
      → P (with_db run s).0
  with_db-Keeps run k s p =
      with_db_post P s (λ fs. faultless fs s p) run (λ fs. k (with_faults fs s) (faultless fs s p))

module _ (P : SqlSignalStore → Type 0) where
  pub after-Keeps :
      {A B : Type 0} (f : A → Action B)
      → ((a : A) → Keeps P (f a))
      → (s : SqlSignalStore) (r : SignalResult A) → P s
      → P (after f (s, r)).0
  after-Keeps f k s (succeeded a) p = k a s p
  after-Keeps f k s (rejected e) p = p

  pub bind-Keeps :
      {A B : Type 0} (m : Action A) (f : A → Action B)
      → Keeps P m
      → ((a : A) → Keeps P (f a))
      → Keeps P (m >>= f)
  bind-Keeps m f h k s p = after-Keeps f k (m s).0 (m s).1 (h s p)

  pub lift-Keeps : {A : Type 0} (r : SignalResult A) → Keeps P (lift r)
  lift-Keeps r s p = p

module _ (P : SqlSignalStore → Type 0) (faultless : Faultless P) {R : Type 0}
    (codec : RecordCodec R) where
  -- A record is written by one statement.
  pub record_call-Keeps :
      (method : String) (r : R) (put : Bytes → Statement (Unit {0}))
      → ((b : Bytes) (s : SqlSignalStore) → P s → P (put b s).0)
      → Keeps P (lift (codec.serialize r) >>= λ b. with_conn method (put b))
  record_call-Keeps method r put k =
      bind-Keeps P (lift (codec.serialize r)) (λ b. with_conn method (put b))
        (lift-Keeps P (codec.serialize r)) (λ b. with_conn-Keeps P faultless method (put b) (k b))
