-- ===== src/Tools/OpenPr/Guards.antt =====
-- The tests of `open_pr` before git is called.
use ai_dev_project.Prelude.{String, ◌≡◌, true, false, some, List, [], ◌∷◌, any, is_empty}
use ai_dev_project.Prelude.Text.{is_blank, strip, replace_code}
use ai_dev_project.Json.{Value, arr, Items, nil, cons, Fields, get, to_text}
use ai_dev_project.Platform.{Platform}
use ai_dev_project.Tools.Workspace.{Confined}
use ai_dev_project.Tools.OpenPr.{OpenPrTool, Plan, matches_branch, is_protected}

module _ (P : Platform) {W : Type 0} (x : OpenPrTool W) where
  -- Every item is confined to the root, and the paths are the items with slashes for backslashes.
  pub data AllConfined (w : W) : Items → List String → Type 0 where
    all_done : AllConfined w nil []
    one_more :
        (v : Value) (vs : Items) (paths target : List String)
        → Confined x.workspace (to_text P.repr v) w target
        → AllConfined w vs paths
        → AllConfined w (cons v vs) (replace_code b'\\' "/" (to_text P.repr v) ∷ paths)

  -- The branch has the form that is demanded, the message is not blank, there is a path, every path is
  -- confined, and none is protected.
  pub record Accepted (args : Fields) (w : W) (plan : Plan) : Type 0 where
    pub items : Items
    pub branch_form : matches_branch x.is_digit plan.branch ≡ true
    pub message_given : is_blank (strip plan.message) ≡ false
    pub paths_given : get args "paths" ≡ some (arr items)
    pub some_path : is_empty plan.paths ≡ false
    pub confined : AllConfined w items plan.paths
    pub unprotected : any is_protected plan.paths ≡ false
