-- ===== src/Compress/Fallback.antt =====
-- When a body is replaced (internal/gateway/compress.go).
use hive_mind_fusion.Prelude.{
  pos, ltb_ℤ, ◌≤ℤ◌, Text, text, same, same_iff, is_empty, [], Option, none, some, length, ◌≡◌, ◌≢◌,
  ◌⊎◌, arith, refl, inl, inr, not, ◌||◌, Option-cases, Bool-cases,
}
use hive_mind_fusion.Compress.{CompressResponse, Compressor, Sidecar, compress_body}

-- A body leaves the compressor as it came, unless the compressor is there, the body has its minimal size
-- and the sidecar answers "compressed" with a body that is not empty: then it is that body.
pub compress_body_lem :
    (sidecar : Sidecar) (o : Option Compressor) (body : Text)
    → (compress_body sidecar o body ≡ body)
      ⊎ ((c : Compressor) × (r : CompressResponse) × (o ≡ some c)
          × (c.min_body_size ≤ℤ pos (length body))
          × (sidecar c.endpoint body ≡ some r)
          × (r.action ≡ text "compressed")
          × (r.body ≢ [])
          × (compress_body sidecar o body ≡ r.body))
unfolding compress_body
compress_body_lem sidecar none body = inl refl
compress_body_lem sidecar (some c) body = elim (Option-cases (sidecar c.endpoint body)) [
  | inl failed ↦ inl (ground arith)
  | inr (r, e) ↦
      elim (Bool-cases (
        ltb_ℤ (pos (length body)) c.min_body_size
        || (not (same r.action (text "compressed")) || is_empty r.body))) [
          | inl kept ↦ inl (ground arith)
          | inr replaced ↦ inr (
            c,
            r,
            refl,
            ground arith,
            e,
            ground (arith, same_iff r.action (text "compressed")),
            ground arith,
            ground arith,
          )
        ]
]
