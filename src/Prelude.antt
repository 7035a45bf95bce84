-- ===== src/Prelude.antt =====
-- The names that all modules share: the libraries', passed on, and those of the children: tests,
-- lists, maps keyed by byte strings, and the arithmetic of fixed-width integers.
mod Tests
mod Lists
mod Words
mod Errors
mod Bits
pub mod Integers
pub mod Sort
pub mod Map
pub mod Table
pub use Tests.{
  ltb, leb, ◌==◌, if◌then◌else◌, Bytes, bytes_eq, ltb→lt, lt→ltb, leb→le, bytes_eq_iff,
  bytes_eq_refl, Bool-cases, Option-cases,
}
unfoldable pub use Tests.{bytes_dec, codes}
pub use Lists.{
  length, take, drop, replicate, get_elem?, All, length-append, length-retain-le, length-take-le,
  take-append, drop-append, append-injective, All-append, All-retain,
}
unfoldable pub use Lists.{retain, any}
pub use Words.{
  u64_max, u32_max, i64_max, saturating_add, saturating_sub, wrapping_add, length-be_bytes,
  from_be-be_bytes, be_bytes-injective, be_bytes-append-injective,
}
unfoldable pub use Words.{be_bytes, from_be}
pub use Errors.{
  CoreError, entropy, crypto, cbor, db, io, config, identity_changed, Result, ok, err, ◌>>=◌, ◌>>◌,
  fail_if, is_err, ok_or, Result-cases, >>=-eq-ok, Outcome, done, failed, map_err,
}
pub use Prim.Native.Nat.{ℕ, zero, suc, ◌+◌, ◌-◌, ◌*◌, ◌/◌, ◌%◌, ◌^◌, ◌≤◌, ◌<◌, min, max}
pub use mathlib.Core.Path.{◌≡◌, refl, sym, ap, ap₂, subst, ◌∙◌}
pub use mathlib.Core.Logic.{◌≢◌, ◌↔◌, ◌⊎◌, inl, inr}
pub use mathlib.Core.Bool.{Bool, true, false, not, ◌&&◌, ◌||◌}
pub use mathlib.Core.Option.{Option, none, some}
pub use mathlib.Core.List.{List, [], ◌∷◌, ◌++◌, map}
pub use native.Mathlib.Omega.{arith}
unfoldable pub use native.Mathlib.Decide.{dec_lt, dec_le, ℕ_discrete}
pub use Bits.{diff_zero_iff, IsByte, passes_at}
unfoldable pub use Bits.{diff, passes}
pub use native.Mathlib.Nat.{le_trans, le_refl}
