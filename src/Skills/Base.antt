-- ===== src/Skills/Base.antt =====
-- skills/base.py, skills/registry.py and llm/base.py
pub mod Context
use ai_dev_project.Prelude.{
  ℕ, ◌+◌, ◌-◌, suc, String, Bool, true, false, not, ◌&&◌, Option, none, some, List, [], ◌∷◌, ◌++◌,
  ◌==◌, ltb, contains, if◌then◌else◌,
}
use ai_dev_project.Prelude.Dict.{Dict, lookup, put, member, keys}
use ai_dev_project.Prelude.Sort.{sort, text_less}
use ai_dev_project.Prelude.Text.{
  ◌<>◌, strip, begins_with, split_lines, join, find_code, rfind_code, take_chars, drop_chars,
}
use ai_dev_project.Python.{
  Result, ok, raised, ◌>>=◌, sensitive_content_error, skill_error, unknown_skill_error, value_error,
  type_error,
}
use ai_dev_project.Json.{
  Value, null, str, arr, obj, Items, nil, cons, Fields, end, field, get, get_or, insert, item,
  to_text, need_obj,
}
use ai_dev_project.Platform.{Platform}
use ai_dev_project.Trust.{TrustTier, classify_source, is_sensitive}

pub record ContextInput : Type 0 where
  pub name : String
  pub document : Fields
  pub source : String

-- `assemble` takes the content of the model and the envelope.
pub record Skill : Type 0 where
  pub name : String
  pub role : String
  pub tool_name : String
  pub output_schema : String
  pub system_prompt : String
  pub context_keys : List String
  pub assemble : Fields → Fields → Result Fields

abbrev pub SkillRegistry : Type 0
SkillRegistry = Dict Skill

unfoldable pub register_skill : Skill → SkillRegistry → Result SkillRegistry
register_skill skill skills =
    if member skill.name skills then raised value_error else ok (put skill.name skill skills)

-- The loop of `SkillRegistry(skills)`.
unfoldable pub register_skills : SkillRegistry → List Skill → Result SkillRegistry
register_skills skills [] = ok skills
register_skills skills (skill ∷ rest) =
    register_skill skill skills >>= λ next. register_skills next rest

unfoldable pub get_skill : String → SkillRegistry → Result Skill
get_skill name skills = elim (lookup name skills) [
  | none ↦ raised unknown_skill_error
  | some skill ↦ ok skill
]

unfoldable pub skill_names : SkillRegistry → List String
skill_names skills = sort text_less (keys skills)

pub record LlmRequest : Type 0 where
  pub role : String
  pub system_prompt : String
  pub context : Fields

pub record LlmResponse : Type 0 where
  pub text : String
  pub model : String

-- A provider acts on a world `L` of its own.
abbrev pub LlmAdapter : Type 0 → Type 0
LlmAdapter L = LlmRequest → L → Result LlmResponse × L

-- `build_context`, with the context so far
unfoldable pub build_context_onto : Fields → List ContextInput → Result Fields
build_context_onto context [] = ok context
build_context_onto context (input ∷ inputs) =
    let rest = build_context_onto (insert input.name (obj input.document) context) inputs in
    if is_sensitive (classify_source input.source) then raised sensitive_content_error else rest

abbrev pub build_context : List ContextInput → Result Fields
build_context inputs = build_context_onto end inputs

-- `if lines and lines[-1].strip().startswith("```"): lines = lines[:-1]`
abbrev drop_fence : List String → List String
drop_fence [] = []
drop_fence (line ∷ []) = if begins_with (strip line) "```" then [] else line ∷ []
drop_fence (line ∷ next ∷ rest) = line ∷ drop_fence (next ∷ rest)

abbrev tail_lines : List String → List String
tail_lines [] = []
tail_lines (line ∷ lines) = lines

unfoldable pub strip_fences : String → String
strip_fences stripped =
    if begins_with stripped "```"
    then strip (join "\n" (drop_fence (tail_lines (split_lines stripped))))
    else stripped

-- The text from the first `{` to the last `}`, where that one stands behind it.
unfoldable pub braces : String → List String
braces stripped = elim (find_code b'{' stripped) [
  | none ↦ []
  | some start ↦ elim (rfind_code b'}' stripped) [
    | none ↦ []
    | some last ↦
        if ltb start last
        then take_chars (suc last - start) (drop_chars start stripped) ∷ []
        else []
  ]
]

abbrev need_link : Value → Result Fields
need_link (obj d) = ok d
need_link _ = raised type_error

abbrev pub link_items : List Fields → Items
link_items [] = nil
link_items (link ∷ links) = cons (obj link) (link_items links)

module _ (P : Platform) where
  abbrev first_object : List String → Result Fields
  first_object [] = raised skill_error
  first_object (candidate ∷ candidates) =
      let rest = first_object candidates in
      elim (P.loads candidate) [ some (obj d) ↦ ok d | _ ↦ rest ]

  unfoldable pub extract_json : String → Result Fields
  extract_json text =
      let stripped = strip_fences (strip text) in first_object (stripped ∷ braces stripped)

  -- `str(link.get("href", ""))`
  abbrev href_of : Fields → String
  href_of link = to_text P.repr (get_or link "href" (str ""))

  -- `dict(link)` of each link. What is no object raises; the empty text and the empty list, which
  -- `dict` takes too, are left out.
  abbrev pub link_list : Items → Result (List Fields)
  link_list nil = ok []
  link_list (cons v vs) = do link ← need_link v; rest ← link_list vs; ok (link ∷ rest)

  abbrev pub hrefs : List Fields → List String
  hrefs [] = []
  hrefs (link ∷ links) = href_of link ∷ hrefs links

  -- the loop of `add_links`
  unfoldable pub append_links : List String → List Fields → List Fields → Result (List Fields)
  append_links seen existing [] = ok existing
  append_links seen existing (link ∷ links) =
      let href = href_of link in
      let skipped = append_links seen existing links in
      if contains seen href then skipped else do
        rel ← item link "rel"
        append_links (href ∷ seen)
            (existing
              ++ ((field "rel" (str (to_text P.repr rel)) (field "href" (str href) end)) ∷ []))
            links

  abbrev existing_links : Option Value → Result (List Fields)
  existing_links none = ok []
  existing_links (some (arr items)) = link_list items
  existing_links (some _) = raised type_error

  -- The document that `add_links` leaves behind.
  unfoldable pub add_links : Fields → List Fields → Result Fields
  add_links document links = do
    existing ← existing_links (get document "links")
    final ← append_links (hrefs existing) existing links
    ok (insert "links" (arr (link_items final)) document)
