-- ===== src/Envelope/Compression.antt =====
-- envelope.rs, `compression`: the calls of zstd, which are arguments.
use mesui.Prelude.{ℕ, Bytes, Result, io, Outcome, map_err}

unfoldable pub compress : (Bytes → ℕ → Outcome Bytes) → Bytes → ℕ → Result Bytes
compress encode_all bytes level = map_err io (encode_all bytes level)

unfoldable pub decompress : (Bytes → Outcome Bytes) → Bytes → Result Bytes
decompress decode_all bytes = map_err io (decode_all bytes)
