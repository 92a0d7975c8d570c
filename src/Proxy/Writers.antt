-- ===== src/Proxy/Writers.antt =====
-- The response writers that the handlers put around that of the server (`capturingResponseWriter` of
-- internal/gateway/consumer.go, `bodyRecorder` of internal/pii/middleware.go, `statusRecorder` of
-- internal/gateway/metrics.go). Each embeds the interface http.ResponseWriter, which has no Flush, and adds none.
use hive_mind_fusion.Prelude.{Bool, true, false}

pub data Writer : Type 0 where
  of_server : Writer
  capturing : Writer → Writer
  recording_body : Writer → Writer
  recording_status : Writer → Writer

-- `w.(http.Flusher)` succeeds: on the server's own writer only.
unfoldable pub is_flusher : Writer → Bool
is_flusher of_server = true
is_flusher (capturing w) = false
is_flusher (recording_body w) = false
is_flusher (recording_status w) = false
