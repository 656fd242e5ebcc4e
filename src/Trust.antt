-- ===== src/Trust.antt =====
-- control-plane/src/sdlc/trust.py
use ai_dev_project.Prelude.{String, Bool, true, false, List, [], ◌∷◌, contains, if◌then◌else◌}

pub data TrustTier : Type 0 where
  trusted untrusted sensitive : TrustTier

-- `tier.value`
abbrev pub tier_value : TrustTier → String
tier_value trusted = "trusted"
tier_value untrusted = "untrusted"
tier_value sensitive = "sensitive"

-- `tier is TrustTier.UNTRUSTED`
abbrev pub is_untrusted : TrustTier → Bool
is_untrusted untrusted = true
is_untrusted _ = false

-- `tier is TrustTier.SENSITIVE`
abbrev pub is_sensitive : TrustTier → Bool
is_sensitive sensitive = true
is_sensitive _ = false

abbrev pub trusted_sources : List String
trusted_sources = "approved_artifact" ∷ "policy" ∷ "schema" ∷ "pinned_template" ∷ []

abbrev pub sensitive_sources : List String
sensitive_sources = "secret" ∷ "credential" ∷ "pii" ∷ "production_config" ∷ []

unfoldable pub can_use_as_instruction : TrustTier → Bool
can_use_as_instruction trusted = true
can_use_as_instruction _ = false

unfoldable pub classify_source : String → TrustTier
classify_source source =
    if contains trusted_sources source
    then trusted
    else if contains sensitive_sources source
    then sensitive
    else untrusted
