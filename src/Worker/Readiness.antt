-- ===== src/Worker/Readiness.antt =====
-- Which stages become ready after a success.
use situation_studio.Prelude.{◌≡◌, Bool, true, ◌&&◌, List, String, str_eq}
use situation_studio.Prelude.Members.{In}
use situation_studio.Store.{ReviewStep, step_is_pending, step_is_succeeded}

-- A step of that role has succeeded.
abbrev answers : String → ReviewStep → Bool
answers d t = step_is_succeeded t.state && str_eq t.role_code d

-- A step that waits for nothing: each role that it depends on has a step that has succeeded.
abbrev pub IsDue : List ReviewStep → ReviewStep → Type 0
IsDue steps s =
    (step_is_pending s.state ≡ true)
    × ((d : String)
        → In d s.dependencies
        → (t : ReviewStep) × In t steps
          × (step_is_succeeded t.state ≡ true)
          × (str_eq t.role_code d ≡ true))
