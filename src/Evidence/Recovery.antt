-- ===== src/Evidence/Recovery.antt =====
-- The store behind `process_tool_output`.
use ai_dev_project.Prelude.{
  ◌⊎◌, ℕ, String, ◌≡◌, refl, true, false, none, some, List, arith, eq_refl, eq_iff, Bool-cases, inl,
  inr,
}
use ai_dev_project.Prelude.Dict.{lookup, lookup-put}
use ai_dev_project.Prelude.Text.{◌<>◌, utf8}
use ai_dev_project.Prelude.TextLaws.{begins_with-append, drop_chars-append}
use ai_dev_project.Python.{ok, raised, sensitive_content_error}
use ai_dev_project.Json.{get, str}
use ai_dev_project.Platform.{Platform}
use ai_dev_project.Trust.{TrustTier, is_sensitive}
use ai_dev_project.Evidence.Store.{EvidenceStore, read_bytes, resolve, store_bytes}
use ai_dev_project.Evidence.Output.{ToolOutputResult, OutputArgs, process_tool_output, outcome}
use ai_dev_project.Evidence.Record.{digest-build_evidence_record, ref-build_evidence_record}
use ai_dev_project.Evidence.Compression.{compress_for_context, default_excerpt_bytes}

-- A recovery handle is resolved to the entry under its digest.
pub resolve-handle : (d : String) (s : EvidenceStore) → resolve ("sha256:" <> d) s ≡ read_bytes d s
unfolding resolve
resolve-handle d s = rw (begins_with-append "sha256:" d, drop_chars-append "sha256:" d)

-- Every entry of the store stands under the digest of its bytes.
pub record IsAddressed (P : Platform) (s : EvidenceStore) : Type 0 where
  pub at : (k : String) (b : List ℕ) → lookup k s ≡ some b → k ≡ P.sha256 b

module _ (P : Platform) where
  pub read_bytes-store_bytes :
      (b : List ℕ) (s : EvidenceStore) → read_bytes (P.sha256 b) (store_bytes P b s).1 ≡ ok b
  unfolding read_bytes store_bytes
  read_bytes-store_bytes b s =
      ground (arith, lookup-put (P.sha256 b) (P.sha256 b) b s, eq_refl (P.sha256 b))

  original_digest_lem :
      (text : String) (t : TrustTier) (m e : ℕ)
      → (compress_for_context P text t m e).original_digest ≡ P.sha256 (utf8 text)
  unfolding compress_for_context
  original_digest_lem text t m e = ground arith

  -- The digest test of `process_tool_output` cannot fail.
  pub process_tool_output_lem :
      (text : String) (a : OutputArgs) (s : EvidenceStore)
      → is_sensitive a.tier ≡ false
      → process_tool_output P text a s ≡ (ok (outcome P text a), (store_bytes P (utf8 text) s).1)
  unfolding process_tool_output store_bytes
  process_tool_output_lem text a s h = rw h (
      ground (
        arith,
        original_digest_lem text a.tier a.max_bytes default_excerpt_bytes,
        eq_refl (P.sha256 (utf8 text)),
      ))

  recovery_handle_lem :
      (text : String) (t : TrustTier) (m e : ℕ)
      → (compress_for_context P text t m e).recovery_handle ≡ "sha256:" <> P.sha256 (utf8 text)
  unfolding compress_for_context
  recovery_handle_lem text t m e = ground arith

  -- A sensitive text raises and writes nothing. Any other text is accepted: its bytes can be read
  -- back by the recovery handle, and the evidence record holds their digest, and the handle too
  -- unless the caller gave a reference of its own.
  pub process_tool_output_recovers :
      (text : String) (a : OutputArgs) (s : EvidenceStore)
      → let (r, s') = process_tool_output P text a s in
        let digest = P.sha256 (utf8 text) in
        let handle = "sha256:" <> digest in
        (is_sensitive a.tier ≡ true → (r ≡ raised sensitive_content_error) × (s' ≡ s))
        × (is_sensitive a.tier ≡ false
            → (out : ToolOutputResult) × (r ≡ ok out)
              × (out.digest ≡ digest)
              × (resolve handle s' ≡ ok (utf8 text))
              × (get out.evidence "artifact_digest" ≡ some (str digest))
              × (a.artifact_ref ≡ none → get out.evidence "artifact_ref" ≡ some (str handle)))
  process_tool_output_recovers text a s = (
    λ h. unfold process_tool_output in (rw h refl, rw h refl),
    λ h. (
      outcome P text a,
      rw process_tool_output_lem refl,
      refl,
      rw (process_tool_output_lem, resolve-handle) (read_bytes-store_bytes (utf8 text) s),
      digest-build_evidence_record _ _ refl,
      λ e.
          ref-build_evidence_record _ _
            (ground (arith, recovery_handle_lem text a.tier a.max_bytes default_excerpt_bytes)),
    ),
  )

  module _ (b : List ℕ) (s : EvidenceStore) where
    pub store_bytes-IsAddressed : IsAddressed P s → IsAddressed P (store_bytes P b s).1
    unfolding store_bytes
    store_bytes-IsAddressed inv = record {
      at =
          λ k c h. ground (arith, lookup-put (P.sha256 b) k b s, eq_iff (P.sha256 b) k, inv.at k c);
    }

    store_bytes_keeps :
        IsAddressed P s
        → (k : String) (c : List ℕ) → lookup k s ≡ some c
        → (lookup k (store_bytes P b s).1 ≡ some c)
          ⊎ ((P.sha256 c ≡ P.sha256 b) × (lookup k (store_bytes P b s).1 ≡ some b))
    unfolding store_bytes
    store_bytes_keeps inv k c h =
        ground (arith, lookup-put (P.sha256 b) k b s, eq_iff (P.sha256 b) k, inv.at k c h)

  -- From a store where every entry stands under the digest of its bytes, a call, whether it raises or
  -- not, leads to another such store. Each entry is kept, or the new text has the same digest as its bytes
  -- and stands in its place.
  pub process_tool_output-IsAddressed :
      (text : String) (a : OutputArgs) (s : EvidenceStore)
      → IsAddressed P s
      → let s' = (process_tool_output P text a s).1 in
        IsAddressed P s'
        × ((k : String) (c : List ℕ)
            → lookup k s ≡ some c
            → (lookup k s' ≡ some c)
              ⊎ ((P.sha256 c ≡ P.sha256 (utf8 text)) × (lookup k s' ≡ some (utf8 text))))
  process_tool_output-IsAddressed text a s inv = elim (Bool-cases (is_sensitive a.tier)) [
    | inl h ↦ unfold process_tool_output in rw h (inv, λ k c e. inl e)
    | inr h ↦
        rw (process_tool_output_lem text a s h)
          (store_bytes-IsAddressed (utf8 text) s inv, store_bytes_keeps (utf8 text) s inv)
  ]
