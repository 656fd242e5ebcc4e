-- ===== src/Runner/Capability/Decoding.antt =====
-- `decode_token` against `issue_token` and against the signature.
use text.Mathlib.TextLemmas.{append_assoc}
use ai_dev_project.Prelude.{
  ℕ, String, ◌≡◌, ◌∙◌, sym, ap, refl, true, false, none, some, List, [], ◌∷◌, arith, eq_refl,
  eq_iff, inl, inr,
}
use ai_dev_project.Prelude.Text.{◌<>◌, utf8, is_ascii, is_blank, split, join, has_code}
use ai_dev_project.Prelude.TextLaws.{is_ascii-append}
use ai_dev_project.Prelude.SplitLaws.{split-one, split-append_join, join-split}
use ai_dev_project.Python.{ok, raised, Result-cases, unicode_encode_error}
use ai_dev_project.Json.{int, str, obj, Fields, end, field, get}
use ai_dev_project.Platform.{Platform, loaded, token_style}
use ai_dev_project.Runner.Capability.{
  Capability, DecodeResult, claims, b64encode, b64decode, sign, issue_token, read_payload,
  decode_payload, decode_parts, decode_token,
}

-- The documented behaviour of URL-safe base64 at `bytes`: an encoding in ASCII letters, digits, `-`
-- and `_` that is decoded to the same bytes.
pub record Encodes (P : Platform) (bytes : List ℕ) : Type 0 where
  pub ascii : is_ascii (b64encode P bytes) ≡ true
  pub no_dot : has_code b'.' (b64encode P bytes) ≡ false
  pub nonblank : is_blank (b64encode P bytes) ≡ false
  pub decodes : b64decode P (b64encode P bytes) ≡ some bytes

-- The claims in the order of their keys, in which `sort_keys` writes them.
abbrev pub sorted_claims : Capability → Fields
sorted_claims c =
    field "exp" (int c.expires_at)
      (field "run_id" (str c.run_id) (field "scope" (str c.scope) (field "tool" (str c.tool) end)))

three_parts : (e s : String) → ("v1." <> e) <> ("." <> s) ≡ "v1" <> ("." <> (e <> ("." <> s)))
three_parts e s =
    ap (λ x. x <> ("." <> s)) (append_assoc "v1" "." e)
    ∙ append_assoc "v1" ("." <> e) ("." <> s)
    ∙ ap (λ x. "v1" <> x) (append_assoc "." e ("." <> s))

split-three :
    (e s : String)
    → has_code b'.' e ≡ false
    → has_code b'.' s ≡ false
    → split b'.' (("v1." <> e) <> ("." <> s)) ≡ "v1" ∷ e ∷ s ∷ []
split-three e s he hs = rw three_parts (
    split-append_join "." "v1" (e <> ("." <> s)) (unfold has_code in refl)
    ∙ ap (λ ws. "v1" ∷ ws) (split-append_join "." e s he ∙ ap (λ ws. e ∷ ws) (split-one b'.' s hs)))

nonblank : (e : String) → is_ascii e ≡ false → is_blank e ≡ false
unfolding is_ascii
nonblank String.[] h = ground arith
nonblank (String.◌∷◌ c e) h = refl

module _ (P : Platform) (secret : List ℕ) where
  -- the text that `issue_token` makes of a payload
  abbrev pub raw_of : Capability → List ℕ
  raw_of c = utf8 (P.dumps token_style (obj (claims c)))

  abbrev pub input_of : Capability → String
  input_of c = "v1." <> b64encode P (raw_of c)

  abbrev pub mac_of : Capability → List ℕ
  mac_of c = P.hmac_sha256 secret (utf8 (input_of c))

  sign-input :
      (c : Capability)
      → Encodes P (raw_of c)
      → sign P secret (input_of c) ≡ ok (b64encode P (mac_of c))
  unfolding sign is_ascii
  sign-input c h = rw (is_ascii-append "v1." (b64encode P (raw_of c)), h.ascii)

  decode_parts_lem :
      (e s : String)
      → is_blank e ≡ false
      → is_blank s ≡ false
      → is_ascii s ≡ true
      → sign P secret ("v1." <> e) ≡ ok s
      → decode_parts P secret ("v1" ∷ e ∷ s ∷ []) ≡ ok (decode_payload P e)
  unfolding decode_parts
  decode_parts_lem e s he hs ha h = rw (he, hs, h, ha) (rw (eq_refl s))

  decode_payload-claims :
      (c : Capability)
      → Encodes P (raw_of c)
      → P.loads_bytes (raw_of c) ≡ loaded (obj (sorted_claims c))
      → decode_payload P (b64encode P (raw_of c)) ≡ record { capability = some c; error = none }
  unfolding get decode_payload read_payload
  decode_payload-claims c hp read = rw (hp.decodes, decode_payload) (rw (read, read_payload))

  -- A token that `issue_token` makes is decoded to the capability that it was made of, if base64 reads
  -- back the payload and the signature, and JSON the payload.
  pub decode_token-issue_token :
      (c : Capability)
      → Encodes P (raw_of c)
      → Encodes P (mac_of c)
      → P.loads_bytes (raw_of c) ≡ loaded (obj (sorted_claims c))
      → (t : String) × (issue_token P secret c ≡ ok t)
        × (decode_token P secret t ≡ ok (record { capability = some c; error = none }))
  decode_token-issue_token c hp hs read = (
    input_of c <> ("." <> b64encode P (mac_of c)),
    unfold issue_token in rw (sign-input c hp),
    unfold decode_token in
        rw (split-three _ _ hp.no_dot hs.no_dot) (
          decode_parts_lem _ _ hp.nonblank hs.nonblank hs.ascii (sign-input c hp)
          ∙ ap ok (decode_payload-claims c hp read)),
  )

  decode_parts_sound :
      (parts : List String) {r : DecodeResult} {c : Capability}
      → decode_parts P secret parts ≡ ok r
      → r.capability ≡ some c
      → (e s : String) × (parts ≡ "v1" ∷ e ∷ s ∷ [])
        × (sign P secret ("v1." <> e) ≡ ok s)
        × (decode_payload P e ≡ r)
  unfolding decode_parts
  decode_parts_sound (v ∷ e ∷ s ∷ []) h hc = elim (Result-cases (sign P secret ("v1." <> e))) [
    | inl (x, q) ↦ (
      e,
      s,
      ground (arith, eq_iff v "v1"),
      ground (arith, q, eq_iff x s),
      ground (arith, q, eq_iff x s),
    )
    | inr (x, q) ↦ ground (arith, q)
  ]
  decode_parts_sound [] h hc = ground arith
  decode_parts_sound (v ∷ []) h hc = ground arith
  decode_parts_sound (v ∷ w ∷ []) h hc = ground arith
  decode_parts_sound (v ∷ w ∷ x ∷ y ∷ l) h hc = ground arith

  -- A token from which a capability is decoded is `v1.<payload>.<signature>`, its signature is the one
  -- that the secret gives the text before it, and the capability is the one that the payload encodes.
  pub decode_token_sound :
      (token : String) (r : DecodeResult) (c : Capability)
      → decode_token P secret token ≡ ok r
      → r.capability ≡ some c
      → (e s : String) × (token ≡ "v1" <> ("." <> (e <> ("." <> s))))
        × (sign P secret ("v1." <> e) ≡ ok s)
        × (decode_payload P e ≡ r)
  unfolding decode_token join
  decode_token_sound token r c h hc =
      let (e, s, parts, signed, payload) = decode_parts_sound (split b'.' token) h hc in
      (e, s, sym (join-split "." token) ∙ ap (join ".") parts, signed, payload)

  -- `decode_token` raises, and gives no failure code, on a token of the right shape whose payload has
  -- a character outside ASCII.
  pub decode_token_raises :
      (e s : String)
      → has_code b'.' e ≡ false
      → has_code b'.' s ≡ false
      → is_blank s ≡ false
      → is_ascii e ≡ false
      → decode_token P secret (("v1." <> e) <> ("." <> s)) ≡ raised unicode_encode_error
  unfolding decode_token decode_parts sign is_ascii
  decode_token_raises e s he hs bs a =
      rw (split-three e s he hs) (rw (nonblank e a, bs, is_ascii-append "v1." e, a))
