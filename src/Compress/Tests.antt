-- ===== src/Compress/Tests.antt =====
-- A body that the sidecar compresses, and one that is too short (internal/gateway/compress.go).
use hive_mind_fusion.Prelude.{pos, text, same, true, some, ◌≡◌, refl}
use hive_mind_fusion.Compress.{Compressor, Sidecar, new_compressor, compress_body}

abbrev sidecar : Sidecar
sidecar endpoint body = some (record { body = text "short"; action = text "compressed" })

abbrev compressor : Compressor
compressor = record { endpoint = text "http://c"; min_body_size = pos 8 }

made :
    new_compressor (record {
      enabled = true;
      endpoint = text "http://c";
      min_body_size = pos 8;
      timeout_ms = pos 0;
    })
    ≡ some compressor
unfolding new_compressor text
made = refl

compressed : compress_body sidecar (some compressor) (text "a long body") ≡ text "short"
unfolding compress_body text same
compressed = refl

too_short : compress_body sidecar (some compressor) (text "body") ≡ text "body"
unfolding compress_body text same
too_short = refl
