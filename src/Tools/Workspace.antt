-- ===== src/Tools/Workspace.antt =====
-- `WorkspaceWriter` of tools/builtin.py, and the confinement of paths that tools/vcs.py repeats.
use ai_dev_project.Prelude.{
  ℕ, String, ◌≡◌, ◌⊎◌, inl, inr, Bool, true, false, not, ◌||◌, List, [], ◌∷◌, ◌==◌, contains,
  filter, length, if◌then◌else◌, arith,
}
use ai_dev_project.Prelude.Int.{pos}
use ai_dev_project.Prelude.Text.{is_blank, begins_with, split, utf8, replace_code}
use ai_dev_project.Python.{Result, ok, raised, ◌>>=◌, value_error, Result-cases}
use ai_dev_project.Json.{int, str, Fields, end, field}
use ai_dev_project.Platform.{Platform}

-- What the tools use of the file system `W`: the parts of the resolved root, `(root / path).resolve()`,
-- which follows symbolic links, `is_dir`, and the write of a file with its parent directories.
pub record Workspace (W : Type 0) : Type 0 where
  pub root : List String
  pub resolve : String → W → Result (List String)
  pub is_dir : List String → W → Bool
  pub write_bytes : List String → List ℕ → W → Result (Unit {0}) × W

-- `Path(path).parts` of a relative path
abbrev pub parts_of : String → List String
parts_of path = filter (λ part. not (is_blank part || part == ".")) (split b'/' path)

-- `target == root or root in target.parents`
abbrev pub within : List String → List String → Bool
within [] target = true
within (a ∷ root) [] = false
within (a ∷ root) (b ∷ target) = let rest = within root target in if a == b then rest else false

abbrev pub is_rooted : String → Bool
is_rooted path = begins_with path "/" || begins_with path "\\"

module _ {W : Type 0} (ws : Workspace W) where
  -- The tests of a path, and the target that it resolves to.
  unfoldable pub confine : String → W → Result (List String)
  confine path w =
      if is_blank path || is_rooted path
      then raised value_error
      else if contains (parts_of path) ".."
      then raised value_error
      else do
        target ← ws.resolve path w
        if within ws.root target then ok target else raised value_error

  unfoldable pub write_target :
      Platform → String → String → Result (List String) → W → Result Fields × W
  write_target P path content (raised e) w = (raised e, w)
  write_target P path content (ok target) w =
      let bytes = utf8 content in
      let (r, w') = ws.write_bytes target bytes w in
      (
        do
          _ ← r
          ok (
              field "path" (str (replace_code b'\\' "/" path)) (
                field "digest" (str (P.sha256 bytes))
                  (field "bytes" (int (pos (length bytes))) end))),
        w',
      )

  -- `WorkspaceWriter.write`
  unfoldable pub write_file : Platform → String → String → W → Result Fields × W
  write_file P path content w = write_target P path content (confine path w) w

  -- The path is relative, has no part `..`, and its target lies in the root.
  pub record Confined (path : String) (w : W) (target : List String) : Type 0 where
    pub given : is_blank path ≡ false
    pub relative : is_rooted path ≡ false
    pub no_parent : contains (parts_of path) ".." ≡ false
    pub resolved : ws.resolve path w ≡ ok target
    pub inside : within ws.root target ≡ true

  pub confine-Confined :
      (path : String) (w : W) (target : List String)
      → confine path w ≡ ok target
      → Confined path w target
  unfolding confine
  confine-Confined path w target h = elim (Result-cases (ws.resolve path w)) [
    | inr (e, q) ↦ ground (arith, q)
    | inl (found, q) ↦ record {
      given = ground arith;
      relative = ground arith;
      no_parent = ground arith;
      resolved = ground (arith, q);
      inside = ground (arith, q);
    }
  ]

  -- Writing a file leaves the file system alone, or it writes the encoded content at one target, for a
  -- path that is relative, has no part `..`, and resolves into the root.
  pub world-write_file :
      (P : Platform) (path content : String) (w : W)
      → ((write_file P path content w).1 ≡ w)
        ⊎ ((target : List String) × Confined path w target
            × ((write_file P path content w).1 ≡ (ws.write_bytes target (utf8 content) w).1))
  unfolding write_file write_target
  world-write_file P path content w = elim (Result-cases (confine path w)) [
    | inr (e, q) ↦ inl (rw (q, write_target))
    | inl (target, q) ↦ inr (target, confine-Confined path w target q, rw (q, write_target))
  ]
