-- ===== src/Compress.antt =====
-- The compression sidecar (internal/gateway/compress.go). The sidecar is an argument: `none` for every
-- failed call (no response, a status other than 200, a body that does not decode).
pub mod Fallback
mod Tests
use hive_mind_fusion.Prelude.{
  ℕ, ℤ, pos, ltb_ℤ, is_zero, Text, text, same, is_empty, Bool, not, ◌&&◌, Option, none, some,
  if◌then◌else◌, length,
}
use hive_mind_fusion.Config.{Compression}

-- The two fields of the sidecar's answer that decide.
pub record CompressResponse : Type 0 where
  pub body : Text
  pub action : Text

pub record Compressor : Type 0 where
  pub endpoint : Text
  pub min_body_size : ℤ

unfoldable pub new_compressor : Compression → Option Compressor
new_compressor cfg =
    if cfg.enabled
    then some (record {
      endpoint = cfg.endpoint;
      min_body_size = if is_zero cfg.min_body_size then pos 100 else cfg.min_body_size;
    })
    else none

abbrev pub Sidecar : Type 0
Sidecar = Text → Text → Option CompressResponse

abbrev pub compressed_or : Text → Option CompressResponse → Text
compressed_or body none = body
compressed_or body (some r) =
    if same r.action (text "compressed") && not (is_empty r.body) then r.body else body

-- `none` is the nil compressor.
unfoldable pub compress_body : Sidecar → Option Compressor → Text → Text
compress_body sidecar none body = body
compress_body sidecar (some c) body =
    if ltb_ℤ (pos (length body)) c.min_body_size
    then body
    else compressed_or body (sidecar c.endpoint body)
