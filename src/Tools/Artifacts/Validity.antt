-- ===== src/Tools/Artifacts/Validity.antt =====
-- What the artifact tools store, and what they read back.
use ai_dev_project.Prelude.{
  ℕ, String, ◌≡◌, ◌⊎◌, ◌∙◌, sym, ap, inl, inr, refl, true, false, some, List, [], ◌∷◌, is_empty,
  if◌then◌else◌, arith,
}
use mathlib.Core.Path.{subst}
use ai_dev_project.Prelude.Text.{◌<>◌, utf8, is_blank}
use ai_dev_project.Python.{Exn, ok, raised, value_error, ◌>>=◌, >>=-eq-ok, Result-cases}
use ai_dev_project.Json.{Value, str, obj, Fields, end, field, get, item, to_text}
use ai_dev_project.Platform.{Platform, canonical}
use ai_dev_project.Tools.Effects.{and_then-eq-ok, world-and_then-lift}
use ai_dev_project.Artifacts.{Schemas, validate_artifact}
use ai_dev_project.Tools.Artifacts.{
  ArtifactFiles, file_name, id_of, dict_of, accepted, store_document, write, write_as,
  write_handler, read, read_handler, canonical_bytes, parse_artifact,
}

id_of_lem :
    (document : Fields) (artifact_id : String)
    → id_of document ≡ ok artifact_id
    → (get document "id" ≡ some (str artifact_id)) × (is_blank artifact_id ≡ false)
unfolding id_of
id_of_lem document artifact_id h = ground arith

-- The document that the arguments hold is valid against the schema of its type and has an id.
pub record Storable (schemas : Schemas) (args document : Fields) (artifact_id : String)
    : Type 0 where
  pub given : (v : Value) × (get args "document" ≡ some v) × (dict_of v ≡ ok document)
  pub fits : validate_artifact schemas document ≡ ok []
  pub named : get document "id" ≡ some (str artifact_id)
  pub nonblank : is_blank artifact_id ≡ false

item_lem : (d : Fields) (key : String) (v : Value) → item d key ≡ ok v → get d key ≡ some v
unfolding item
item_lem d key v h = ground arith

passed :
    (errors : List String) (d document : Fields)
    → (if is_empty errors then ok d else raised value_error) ≡ ok document
    → (errors ≡ []) × (d ≡ document)
passed [] d document h = (refl, ground arith)
passed (e ∷ es) d document h = cc

accepted_lem :
    (schemas : Schemas) (args document : Fields)
    → accepted schemas args ≡ ok document
    → (v : Value) × (get args "document" ≡ some v)
      × (dict_of v ≡ ok document)
      × (validate_artifact schemas document ≡ ok [])
unfolding accepted
accepted_lem schemas args document h =
    let (v, a, h1) = >>=-eq-ok (item args "document") _ h in
    let (d, b, h2) = >>=-eq-ok (dict_of v) _ h1 in
    let (errors, c, h3) = >>=-eq-ok (validate_artifact schemas d) _ h2 in
    let (none_left, same) = passed errors d document h3 in
    (v, item_lem args "document" v a, b ∙ ap ok same, rw (sym same) (c ∙ ap ok none_left))

module _ (P : Platform) {W : Type 0} (files : ArtifactFiles W) (schemas : Schemas) where
  -- The world behind the writing of a document: the root is made, and if that returns, the canonical JSON of
  -- the document (sorted keys, no spaces, no escapes) is written in UTF-8 to the file of its id.
  pub data Written (document : Fields) (artifact_id : String) (w : W) : W → Type 0 where
    no_root :
        (e : Exn)
        → (files.make_root w).0 ≡ raised e
        → Written document artifact_id w (files.make_root w).1
    written :
        (files.make_root w).0 ≡ ok tt
        → Written document artifact_id w
            (files.write_bytes
              (artifact_id <> ".json")
              (utf8 (
                P.dumps
                  (record { sort_keys = true; compact = true; ensure_ascii = false })
                  (obj document)))
              (files.make_root w).1).1

  write_as-Written :
      (document : Fields) (artifact_id : String) (w : W)
      → Written document artifact_id w (write_as P files document artifact_id w).1
  unfolding write_as
  write_as-Written document artifact_id w = elim (Result-cases (files.make_root w).0) [
    | inr (e, r) ↦ rw (r, write_as) (no_root e r)
    | inl (_, r) ↦
        rw (r, write_as)
          (subst (Written document artifact_id w)
            (sym (
              world-and_then-lift
                (files.write_bytes (artifact_id <> ".json") (canonical_bytes P files document)) _
                (files.make_root w).1))
            (written r))
  ]

  -- The write tool leaves the files alone, or it makes the root of the store and, if that returns, writes one
  -- document, as canonical JSON and to the file of its own id: the document of the arguments, which is valid
  -- against the schema of its type.
  pub world-write_handler :
      (args : Fields) (w : W)
      → ((write_handler P files schemas args w).1 ≡ w)
        ⊎ ((document : Fields) × (artifact_id : String) × Storable schemas args document artifact_id
            × Written document artifact_id w (write_handler P files schemas args w).1)
  unfolding write_handler store_document write
  world-write_handler args w = elim (Result-cases (accepted schemas args)) [
    | inr (e, q) ↦ inl (rw (q, write_handler))
    | inl (document, q) ↦ elim (Result-cases (id_of document)) [
      | inr (e, k) ↦ inl (rw (q, write_handler) (rw (k, store_document, write)))
      | inl (artifact_id, k) ↦
          let (v, g, d, fits) = accepted_lem schemas args document q in
          let (named, nonblank) = id_of_lem document artifact_id k in
          inr (
            document,
            artifact_id,
            record { given = (v, g, d); fits = fits; named = named; nonblank = nonblank },
            subst (Written document artifact_id w)
                (sym (
                  rw (q, write_handler)
                    (world-and_then-lift (write P files document) _ w ∙ rw (k, write))))
                (write_as-Written document artifact_id w),
          )
    ]
  ]

  told_lem :
      (document r : Fields) (artifact_id digest : String)
      → get document "id" ≡ some (str artifact_id)
      → (item document "id" >>= λ v.
          ok (field "artifact_id" (str (to_text P.repr v)) (field "digest" (str digest) end)))
        ≡ ok r
      → get r "artifact_id" ≡ some (str artifact_id)
  unfolding item to_text get
  told_lem document r artifact_id digest named h = ground (arith, rw (named, item) at h)

  read_handler_lem :
      (artifact_id text : String) (document : Fields) (w : W)
      → files.is_file (file_name artifact_id) w ≡ true
      → files.read_text (file_name artifact_id) w ≡ ok text
      → P.loads text ≡ some (obj document)
      → read_handler P files (field "artifact_id" (str artifact_id) end) w
        ≡ (ok (field "artifact_id" (str artifact_id) (field "document" (obj document) end)), w)
  unfolding read_handler read item to_text get
  read_handler_lem artifact_id text document w there found reads =
      rw there (rw found (rw (reads, parse_artifact)))

  module _ (document : Fields)
      (keeps : let bytes : List ℕ = canonical_bytes P files document in
        (name : String) (w : W)
        → (files.write_bytes name bytes w).0 ≡ ok tt
        → (files.is_file name (files.write_bytes name bytes w).1 ≡ true)
          × (files.read_text name (files.write_bytes name bytes w).1
              ≡ ok (P.dumps canonical (obj document)))) where
    write_as-keeps :
        (artifact_id digest : String) (w : W)
        → (write_as P files document artifact_id w).0 ≡ ok digest
        → let after : W = (write_as P files document artifact_id w).1 in
          (files.is_file (file_name artifact_id) after ≡ true)
          × (files.read_text (file_name artifact_id) after ≡ ok (P.dumps canonical (obj document)))
    unfolding write_as
    write_as-keeps artifact_id digest w h =
        let (u, made, h1, e1) = and_then-eq-ok files.make_root _ w h in
        let (v, wrote, h2, e2) =
          and_then-eq-ok
            (files.write_bytes (file_name artifact_id) (canonical_bytes P files document)) _
            (files.make_root w).1 h1 in
        rw (e1, e2) (keeps (file_name artifact_id) (files.make_root w).1 wrote)

    -- What the write tool has stored is read back: after a write that returned, the read tool finds the
    -- document under the id that the write has answered, as JSON reads what it wrote, provided a
    -- file to which it was written is there and has that text.
    pub read_handler-write_handler :
        (args read_back r : Fields) (w : W)
        → accepted schemas args ≡ ok document
        → P.loads (P.dumps canonical (obj document)) ≡ some (obj read_back)
        → (write_handler P files schemas args w).0 ≡ ok r
        → let after : W = (write_handler P files schemas args w).1 in
          (artifact_id : String) × (get document "id" ≡ some (str artifact_id))
          × (get r "artifact_id" ≡ some (str artifact_id))
          × (read_handler P files (field "artifact_id" (str artifact_id) end) after ≡ (
            ok (field "artifact_id" (str artifact_id) (field "document" (obj read_back) end)),
            after,
          ))
    unfolding write_handler store_document write
    read_handler-write_handler args read_back r w acc reads h =
        let h1 : (store_document P files document w).0 ≡ ok r = rw (acc, write_handler) at h in
        let (digest, wrote, told, world) = and_then-eq-ok (write P files document) _ w h1 in
        elim (Result-cases (id_of document)) [
          | inr (e, k) ↦ ground (arith, rw (k, write) at wrote)
          | inl (artifact_id, k) ↦
              let (named, _) = id_of_lem document artifact_id k in
              let stored : (write_as P files document artifact_id w).0 ≡ ok digest =
                rw (k, write) at wrote in
              let (there, found) = write_as-keeps artifact_id digest w stored in
              let ends : (write_handler P files schemas args w).1
                  ≡ (write_as P files document artifact_id w).1 =
                rw (acc, write_handler) (world ∙ rw (k, write)) in
              (
                artifact_id,
                named,
                told_lem document r artifact_id digest named told,
                read_handler_lem artifact_id (P.dumps canonical (obj document)) read_back _
                    (ap (files.is_file (file_name artifact_id)) ends ∙ there)
                    (ap (files.read_text (file_name artifact_id)) ends ∙ found) reads,
              )
        ]
