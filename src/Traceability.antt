-- ===== src/Traceability.antt =====
-- traceability.py. The repository is a dict from repo-relative path to document: `path.resolve()` and
-- `relative_to(repo_root)` are one to one on the paths that are indexed. The set `selected` is a list;
-- the nodes are sorted at the end, and ties come in the order of that list.
pub mod Neighbors
pub mod Edges
pub mod Reach
pub mod Loading
use ai_dev_project.Prelude.{
  ℕ, zero, suc, ◌+◌, String, Bool, true, false, not, ◌&&◌, ◌||◌, Option, none, some, List, [], ◌∷◌,
  ◌++◌, ◌==◌, ltb, eqb, ◌-◌, unique_onto, contains, filter, is_empty, length, if◌then◌else◌,
}
use ai_dev_project.Prelude.Dict.{Dict, lookup, member, keys}
use ai_dev_project.Prelude.Sort.{sort, text_less}
use ai_dev_project.Prelude.Text.{◌<>◌, join, drop_chars}
use ai_dev_project.Prelude.TextLaws.{size}
use ai_dev_project.Json.{
  Value, str, arr, obj, Items, nil, cons, Fields, end, get, get_or, is_text, to_text,
}
use ai_dev_project.Python.{Result, ok, raised, ◌>>=◌, attribute_error, type_error}
use ai_dev_project.Platform.{Platform}

abbrev pub chain_order : List String
chain_order =
    "idea" ∷ "specification" ∷ "threat-model" ∷ "plan" ∷ "task" ∷ "review" ∷ "security-review" ∷ []

pub record TraceNode : Type 0 where
  pub artifact_id : String
  pub artifact_type : String
  pub path : String
  pub feature_id : Option Value

pub record Traceability : Type 0 where
  pub feature_id : String
  pub nodes : List TraceNode
  pub ordered_types : List String
  pub missing_types : List String
  pub dangling : List String

unfoldable pub complete : Traceability → Bool
complete t = is_empty t.missing_types && is_empty t.dangling

-- `s.endswith(suffix)`
abbrev pub ends_with : String → String → Bool
ends_with s suffix =
    not (ltb (size s) (size suffix)) && drop_chars (size s - size suffix) s == suffix

-- Documents by path.
abbrev pub Index : Type 0
Index = Dict Fields

module _ (P : Platform) where
  abbrev pub text_at : Fields → String → String
  text_at doc key = to_text P.repr (get_or doc key (str ""))

  abbrev targets_of : Items → Result (List String)
  targets_of nil = ok []
  targets_of (cons (obj link) links) = do
    rest ← targets_of links
    let href = text_at link "href"
    ok (if ends_with href ".json" then href ∷ rest else rest)
  targets_of (cons _ links) = raised attribute_error

  -- `_local_link_targets`. Links that are a dict or a text, of which a loop would give texts, raise
  -- if there are any.
  unfoldable pub local_link_targets : Fields → Result (List String)
  local_link_targets doc = elim (get doc "links") [
    | none ↦ ok []
    | some (arr links) ↦ targets_of links
    | some (obj end) ↦ ok []
    | some (obj _) ↦ raised attribute_error
    | some (str s) ↦ if s == "" then ok [] else raised attribute_error
    | some _ ↦ raised type_error
  ]

  -- The targets of every document. The first loop of `trace_feature` computes them all, so the later
  -- calls for the same documents return.
  unfoldable pub all_targets : Index → Result (Dict (List String))
  all_targets [] = ok []
  all_targets ((path, doc) ∷ index) = do
    targets ← local_link_targets doc
    rest ← all_targets index
    ok ((path, targets) ∷ rest)

-- The paths that some document links to `current`, once for each link.
abbrev pub linking : String → String → List String → List String
linking current path [] = []
linking current path (href ∷ hrefs) =
    let rest = linking current path hrefs in if href == current then path ∷ rest else rest

abbrev pub incoming : Dict (List String) → String → List String
incoming [] current = []
incoming ((path, hrefs) ∷ targets) current = linking current path hrefs ++ incoming targets current

abbrev hrefs_at : Dict (List String) → String → List String
hrefs_at targets current = elim (lookup current targets) [ none ↦ [] | some hrefs ↦ hrefs ]

-- The worklist: what has been selected, what is still to be read, and the links to no document.
pub record Worklist : Type 0 where
  pub selected : List String
  pub frontier : List String
  pub dangling : List String

unfoldable pub add_neighbors : List String → List String → List String → List String × List String
add_neighbors [] selected frontier = (selected, frontier)
add_neighbors (path ∷ paths) selected frontier =
    let known = contains selected path in
    let selected' = if known then selected else path ∷ selected in
    let frontier' = if known then frontier else path ∷ frontier in
    add_neighbors paths selected' frontier'

module _ (targets : Dict (List String)) where
  unfoldable pub neighbors : String → List String
  neighbors current =
      filter (λ href. member href targets) (hrefs_at targets current) ++ incoming targets current

  abbrev pub lost_links : String → List String
  lost_links current = filter (λ href. not (member href targets)) (hrefs_at targets current)

  -- `while frontier`, with fuel; the top of the stack is the head of the list
  unfoldable pub search : ℕ → Worklist → Worklist
  search zero s = s
  search (suc fuel) s = elim s.frontier [
    | [] ↦ s
    | current ∷ rest ↦
        let (selected, frontier) = add_neighbors (neighbors current) s.selected rest in
        search fuel (record {
          selected = selected;
          frontier = frontier;
          dangling = s.dangling ++ lost_links current;
        })
  ]

-- The paths of the documents of a feature.
abbrev pub of_feature : Index → String → List String
of_feature [] feature_id = []
of_feature ((path, doc) ∷ index) feature_id =
    let rest = of_feature index feature_id in
    if is_text (get doc "feature_id") feature_id then path ∷ rest else rest

abbrev pub initial : Index → String → Worklist
initial index feature_id = record {
  selected = of_feature index feature_id;
  frontier = of_feature index feature_id;
  dangling = [];
}

-- One step for each document and each path that is on the worklist at the start.
abbrev pub fuel_of : Index → Worklist → ℕ
fuel_of index s = length index + length s.frontier

-- `CHAIN_ORDER.index(kind)`, or the length of the list
abbrev rank_in : List String → String → ℕ
rank_in [] kind = 0
rank_in (k ∷ kinds) kind = let rest = rank_in kinds kind in if k == kind then 0 else suc rest

abbrev node_less : TraceNode → TraceNode → Bool
node_less a b =
    let i = rank_in chain_order a.artifact_type in
    let j = rank_in chain_order b.artifact_type in
    if eqb i j then text_less a.artifact_id b.artifact_id else ltb i j

abbrev types_of : List TraceNode → List String
types_of [] = []
types_of (node ∷ nodes) = node.artifact_type ∷ types_of nodes

module _ (P : Platform) where
  abbrev nodes_of : Index → List String → List TraceNode
  nodes_of index [] = []
  nodes_of index (path ∷ paths) =
      let rest = nodes_of index paths in
      elim (lookup path index) [
        | none ↦ rest
        | some doc ↦
            (record {
              artifact_id = text_at P doc "id";
              artifact_type = text_at P doc "artifact_type";
              path = path;
              feature_id = get doc "feature_id";
            })
            ∷ rest
      ]

  abbrev report_of : Index → String → Worklist → Traceability
  report_of index feature_id s =
      let nodes = sort node_less (nodes_of index s.selected) in
      let present = types_of nodes in
      record {
        feature_id = feature_id;
        nodes = nodes;
        ordered_types = filter (contains present) chain_order;
        missing_types = filter (λ kind. not (contains present kind)) chain_order;
        dangling = sort text_less (unique_onto [] s.dangling);
      }

  -- The index is an argument: `discover` reads it from the file system.
  unfoldable pub trace_feature : Index → String → Result Traceability
  trace_feature index feature_id = do
    targets ← all_targets P index
    let start = initial index feature_id
    ok (report_of index feature_id (search targets (fuel_of index start) start))

abbrev spaces : ℕ → String
spaces zero = ""
spaces (suc n) = " " <> spaces n

-- `f"{s:<n}"`
abbrev padded : ℕ → String → String
padded n s = s <> spaces (n - size s)

abbrev node_lines : List TraceNode → List String
node_lines [] = []
node_lines (node ∷ nodes) =
    ("  "
      <> (padded 16 node.artifact_type
          <> (" " <> (padded 12 node.artifact_id <> (" " <> node.path)))))
    ∷ node_lines nodes

abbrev line_unless_empty : String → List String → List String
line_unless_empty label [] = []
line_unless_empty label (x ∷ xs) = (label <> join ", " (x ∷ xs)) ∷ []

unfoldable pub format_report : Traceability → String
format_report report =
    let status = if complete report then "COMPLETE" else "INCOMPLETE" in
    join "\n" (
      ("feature " <> (report.feature_id <> (": " <> status)))
      ∷ (node_lines report.nodes
          ++ (line_unless_empty "  missing: " report.missing_types
              ++ line_unless_empty "  dangling: " report.dangling)))
