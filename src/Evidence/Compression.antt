-- ===== src/Evidence/Compression.antt =====
-- evidence/compression.py
use ai_dev_project.Prelude.{
  ℕ, ◌-◌, ◌+◌, String, Bool, true, false, not, ◌||◌, List, ◌++◌, length, take, drop, leb, eqb,
  if◌then◌else◌,
}
use ai_dev_project.Prelude.Int.{ℤ, pos, negsuc, sub_ℕ}
use ai_dev_project.Prelude.Text.{◌<>◌, utf8, decimal}
use ai_dev_project.Platform.{Platform}
use ai_dev_project.Trust.{TrustTier, is_untrusted}

abbrev pub default_max_bytes : ℕ
default_max_bytes = 8192

abbrev pub default_excerpt_bytes : ℕ
default_excerpt_bytes = 2048

pub record CompressionResult : Type 0 where
  pub applied : Bool
  pub original_digest : String
  pub original_size_bytes : ℕ
  pub compressed_size_bytes : ℕ
  pub recovery_handle : String
  pub context_text : String

abbrev decimal_int : ℤ → String
decimal_int (pos n) = decimal n
decimal_int (negsuc n) = "-" <> decimal (ℕ.suc n)

-- `raw[:n]`
abbrev pub head_of : ℕ → List ℕ → List ℕ
head_of n raw = take n raw

-- `raw[-n:]`, which is all of `raw` where `n` is 0
abbrev pub tail_of : ℕ → List ℕ → List ℕ
tail_of n raw = if eqb n 0 then raw else drop (length raw - n) raw

-- `len(raw) - len(head) - len(tail)`
unfoldable pub omitted : ℕ → List ℕ → ℤ
omitted n raw = sub_ℕ (length raw) (length (head_of n raw) + length (tail_of n raw))

abbrev pub marker : ℤ → String
marker count =
    "\n... ["
    <> (decimal_int count <> " bytes omitted; byte-exact original in evidence store] ...\n")

-- The bytes that `_excerpt` decodes.
unfoldable pub excerpt_of : ℕ → List ℕ → List ℕ
unfolding omitted
excerpt_of n raw = head_of n raw ++ (utf8 (marker (omitted n raw)) ++ tail_of n raw)

module _ (P : Platform) where
  unfoldable pub excerpt : ℕ → List ℕ → String
  unfolding excerpt_of
  excerpt n raw = P.decode_replace (excerpt_of n raw)

  unfoldable pub compress_for_context : String → TrustTier → ℕ → ℕ → CompressionResult
  unfolding excerpt
  compress_for_context text tier max_bytes excerpt_bytes =
      let raw = utf8 text in
      let digest = P.sha256 raw in
      let handle = "sha256:" <> digest in
      if not (is_untrusted tier) || leb (length raw) max_bytes
      then record {
        applied = false;
        original_digest = digest;
        original_size_bytes = length raw;
        compressed_size_bytes = length raw;
        recovery_handle = handle;
        context_text = text;
      }
      else record {
        applied = true;
        original_digest = digest;
        original_size_bytes = length raw;
        compressed_size_bytes = length (P.compress raw);
        recovery_handle = handle;
        context_text = excerpt excerpt_bytes raw;
      }
