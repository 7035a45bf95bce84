-- ===== src/Handshake/Start.antt =====
-- handshake.rs, `Device::generate` and `Device::open`.
use Prim.Native.String.{String}
use mesui.Prelude.{Option, none, Bytes, codes, Result, ok, ◌>>=◌, Outcome}
use mesui.Signal.Engine.{SqlSignalStore}
use mesui.Sqlcipher.{Batch}
use mesui.Signal.Open.{open_store}
use mesui.Handshake.Library.{Moment, Libsignal}
use mesui.Handshake.Device.{Device, bootstrap}

-- `connect` and `execute_batch` are of the engine, see `open_store`.
module _ {R M : Type 0} (lib : Libsignal R M) (connect : Bytes → Outcome SqlSignalStore)
    (execute_batch : Batch → Outcome (Unit {0})) where
  -- The end of `bootstrap`.
  abbrev pub start : String → Moment → Outcome Bytes → SqlSignalStore → Result Device
  start name moment filled store =
      let (s, r) = bootstrap lib name moment filled store in
      do address ← r; ok (record { address = address; store = s })

  unfoldable pub generate_device : String → Moment → Outcome Bytes → Result Device
  unfolding open_store bootstrap codes
  generate_device name moment filled = do
    store ← open_store connect execute_batch (codes ":memory:") none
    start name moment filled store

  unfoldable pub open_device :
      Bytes → Option Bytes → String → Moment → Outcome Bytes → Result Device
  unfolding open_store bootstrap
  open_device path key name moment filled = do
    store ← open_store connect execute_batch path key
    start name moment filled store
