-- ===== src/Skills/Defaults.antt =====
-- skills/__init__.py: the registry of the built-in roles.
use ai_dev_project.Prelude.{◌≡◌, refl, List, [], ◌∷◌}
use ai_dev_project.Prelude.Dict.{lookup, put}
use ai_dev_project.Python.{Result, ok}
use ai_dev_project.Skills.Base.{Skill, SkillRegistry, register_skill, register_skills, get_skill}
use ai_dev_project.Skills.Roles.{grill, grill_security, planner, task_writer, reviewer}

abbrev pub default_skills : List Skill
default_skills = grill ∷ grill_security ∷ planner ∷ task_writer ∷ reviewer ∷ []

unfoldable pub build_default_registry : Result SkillRegistry
build_default_registry = register_skills [] default_skills

-- Each built-in role can be looked up by its name.
pub get_skill-build_default_registry :
    (registry : SkillRegistry) × (build_default_registry ≡ ok registry)
    × (get_skill "grill" registry ≡ ok grill)
    × (get_skill "grill-security" registry ≡ ok grill_security)
    × (get_skill "planner" registry ≡ ok planner)
    × (get_skill "task-writer" registry ≡ ok task_writer)
    × (get_skill "reviewer" registry ≡ ok reviewer)
unfolding build_default_registry register_skills register_skill get_skill lookup put
get_skill-build_default_registry = (_, refl, refl, refl, refl, refl, refl)
