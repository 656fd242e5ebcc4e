-- ===== src/Artifacts/Render.antt =====
-- artifacts/render.py: how values are written, and the sections that every document has. A document is
-- any dict: a missing key, a value of another type, or text that is not text raises as in Python.
pub mod Documents
pub mod Plans
pub mod Records
pub mod Dispatch
pub mod Totality
pub mod Outcome
pub mod Compiled
pub mod Stored
use ai_dev_project.Prelude.{
  String, Bool, true, false, Option, none, some, List, [], ◌∷◌, ◌++◌, map, if◌then◌else◌,
}
use ai_dev_project.Prelude.Text.{◌<>◌, join, is_blank}
use ai_dev_project.Python.{Result, ok, raised, ◌>>=◌, type_error}
use ai_dev_project.Json.{
  Value, null, str, arr, obj, Items, nil, cons, Fields, end, field, get, get_or, item, truthy,
  to_text, need_obj, to_list,
}
use ai_dev_project.Platform.{Platform}

-- `v[key]`, for a text `key`
abbrev pub item_at : Value → String → Result Value
item_at (obj d) key = item d key
item_at _ key = raised type_error

abbrev letters : String → List Value
letters String.[] = []
letters (String.◌∷◌ c s) = str (String.◌∷◌ c "") ∷ letters s

abbrev keys : Fields → List Value
keys end = []
keys (field k v d) = str k ∷ keys d

-- `for x in v`
abbrev pub iterate : Value → Result (List Value)
iterate (arr vs) = ok (to_list vs)
iterate (str s) = ok (letters s)
iterate (obj d) = ok (keys d)
iterate _ = raised type_error

-- `[f(x) for x in xs]`
unfoldable pub each : {A : Type 0} → (Value → Result A) → List Value → Result (List A)
each f [] = ok []
each f (v ∷ vs) = do line ← f v; lines ← each f vs; ok (line ∷ lines)

abbrev pub need_text : Value → Result String
need_text (str s) = ok s
need_text _ = raised type_error

-- The items of `v`, which have to be texts.
abbrev pub texts_of : Value → Result (List String)
texts_of v = iterate v >>= each need_text

abbrev pub tick : String → String
tick s = "`" <> (s <> "`")

-- `', '.join(v)`
abbrev pub commas : Value → Result String
commas v = texts_of v >>= λ texts. ok (join ", " texts)

-- ``', '.join('`' + x + '`' for x in v)``
abbrev pub ticked_commas : Value → Result String
ticked_commas v = texts_of v >>= λ texts. ok (join ", " (map tick texts))

-- `f"| {a} | {b} |"`
abbrev pub row : List String → String
row cells = "| " <> (join " | " cells <> " |")

module _ (P : Platform) where
  -- `f"{v}"`
  abbrev pub shown : Value → String
  shown v = to_text P.repr v

  -- `f"{v[key]}"`
  abbrev pub shown_at : Value → String → Result String
  shown_at v key = item_at v key >>= λ w. ok (shown w)

  -- `f"{d.get(key)}"`
  abbrev pub shown_get : Fields → String → String
  shown_get d key = shown (get_or d key null)

  -- `f"- {x}"` and ``f"- `{x}`"`` for each item
  abbrev pub bullets : Value → Result (List String)
  bullets v = iterate v >>= λ vs. ok (map (λ x. "- " <> shown x) vs)

  abbrev pub ticked_bullets : Value → Result (List String)
  ticked_bullets v = iterate v >>= λ vs. ok (map (λ x. "- " <> tick (shown x)) vs)

  abbrev pub author_lines : Value → Result (List String)
  author_lines by =
      if truthy by
      then (need_obj by >>= λ d. ok (
          row ("Created by" ∷ (shown_get d "id" <> (" (" <> (shown_get d "role" <> ")"))) ∷ [])
          ∷ []))
      else ok []

  -- ``if instance.get(key): lines.append(f"| {label} | `{instance[key]}` |")``
  abbrev optional_line : String → Value → List String
  optional_line label v = if truthy v then row (label ∷ tick (shown v) ∷ []) ∷ [] else []

  -- `_meta`
  unfoldable pub meta : Fields → Result String
  meta instance = do
    author ← author_lines (get_or instance "created_by" null)
    ok (
        join "\n" (
          "| Поле | Значение |"
          ∷ "|---|---|"
          ∷ row ("Artifact" ∷ tick (shown_get instance "artifact_type") ∷ [])
          ∷ row ("ID" ∷ tick (shown_get instance "id") ∷ [])
          ∷ row ("Schema" ∷ tick (shown_get instance "schema_version") ∷ [])
          ∷ row ("Created at" ∷ shown_get instance "created_at" ∷ [])
          ∷ (author
              ++ (optional_line "Run ID" (get_or instance "run_id" null)
                  ++ optional_line "Status" (get_or instance "status" null)))))

  unfoldable pub link_line : Value → Result String
  link_line link = do
    rel ← shown_at link "rel"
    href ← shown_at link "href"
    ok (row (rel ∷ tick href ∷ []))

  -- `_links`
  unfoldable pub links_section : Value → Result String
  links_section links =
      if truthy links
      then (iterate links >>= each link_line >>= λ lines.
          ok (join "\n" ("## Links" ∷ "" ∷ "| Relation | Reference |" ∷ "|---|---|" ∷ lines)))
      else ok ""

  -- The body of `_approval`, for an approval that is there.
  unfoldable pub approval_lines : Fields → Result String
  approval_lines approval = do
    by ← need_obj (let v = get_or approval "by" null in if truthy v then v else obj end)
    ok (
        join "\n" (
          "## Approval"
          ∷ ""
          ∷ ("- State: **"
              <> ((if truthy (get_or approval "approved" null) then "approved" else "not approved")
                  <> "**"))
          ∷ ("- By: " <> (shown (get_or by "id" (str "?")) <> (" at " <> shown_get approval "at")))
          ∷ ((if truthy (get_or approval "solo_override" null)
                then ("- `solo_override=true`: "
                    <> shown (get_or approval "solo_override_reason" (str "")))
                  ∷ []
                else [])
              ++ (if truthy (get_or approval "note" null)
                  then ("- Note: " <> shown_get approval "note") ∷ []
                  else []))))

  -- `_approval`
  unfoldable pub approval_section : Value → Result String
  approval_section approval =
      if truthy approval then (need_obj approval >>= approval_lines) else ok ""
