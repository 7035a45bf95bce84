-- ===== src/Ffi/Errors.antt =====
-- ffi.rs, `DcError`: the errors that cross the border.
use Prim.Native.String.{String, ◌++◌}
use mesui.Prelude.{
  Bool, true, false, CoreError, entropy, crypto, cbor, db, io, config, identity_changed, Result, ok,
  err,
}
use mesui.Signal.Engine.{SignalProtocolError, SignalResult, succeeded, rejected}

pub data DcError : Type 0 where
  core : String → DcError
  remote_identity_changed : String → DcError

-- `std::result::Result<A, DcError>`.
pub data DcResult {ℓ} (A : Type ℓ) : Type ℓ where
  raised : DcError → DcResult A
  returned : A → DcResult A

infixl 5 ◌>>=◌ ◌>>◌
abbrev pub ◌>>=◌ {ℓ κ} : {A : Type ℓ} {B : Type κ} → DcResult A → (A → DcResult B) → DcResult B
raised e >>= next = raised e
returned a >>= next = next a

abbrev pub ◌>>◌ {ℓ} : {B : Type ℓ} → DcResult (Unit {0}) → DcResult B → DcResult B
first >> second = first >>= λ _. second

-- The text that `thiserror` makes of an error.
unfoldable pub to_string : CoreError → String
to_string (entropy e) = "熵源错误: " ++ e
to_string (crypto e) = "密码学错误: " ++ e
to_string (cbor e) = "CBOR 编解码错误: " ++ e
to_string (db e) = "数据库错误: " ++ e
to_string (io e) = "IO 错误: " ++ e
to_string (config e) = "配置错误: " ++ e
to_string (identity_changed name) = "对方身份已变更（" ++ (name ++ " 已绑定不同的长期身份钥），需重新带外验证")

unfoldable pub map_core_error : CoreError → DcError
map_core_error (identity_changed name) = remote_identity_changed name
map_core_error (entropy e) = core (to_string (entropy e))
map_core_error (crypto e) = core (to_string (crypto e))
map_core_error (cbor e) = core (to_string (cbor e))
map_core_error (db e) = core (to_string (db e))
map_core_error (io e) = core (to_string (io e))
map_core_error (config e) = core (to_string (config e))

-- `map_err(map_err)`.
abbrev pub from_core {ℓ} : {A : Type ℓ} → Result A → DcResult A
from_core (ok a) = returned a
from_core (err e) = raised (map_core_error e)

-- `map_err(map_sig)`, with the text that the library makes of its error.
abbrev pub from_sig : {A : Type 0} → (SignalProtocolError → String) → SignalResult A → DcResult A
from_sig display (succeeded a) = returned a
from_sig display (rejected e) = raised (core (display e))

-- `try_into().map_err(…)`.
abbrev pub sized : Bool → String → DcResult (Unit {0})
sized true text = returned tt
sized false text = raised (core text)
