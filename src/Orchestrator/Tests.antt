-- ===== src/Orchestrator/Tests.antt =====
-- The orchestrator at concrete inputs.
use nass.Common.{
  text_eq, to_lower, ◌≡◌, refl, [], ◌∷◌, none, some, text, clean, clean_parts, split, join,
  join_path, has_prefix, fields, split_spaces, dir, up_to_slash,
}
use nass.Orchestrator.{
  Orchestrator, at_path, resolve, new_orchestrator, running, stopped, infer_state,
}

code : Unit {0}
unfolding text_eq resolve new_orchestrator clean clean_parts split join join_path has_prefix fields
    split_spaces dir up_to_slash
code = tt

abbrev docker : Orchestrator
docker = new_orchestrator (text "/srv/apps") (text "docker  compose")

two_words : docker.docker_compose ≡ text "docker" ∷ text "compose" ∷ []
unfolding code
two_words = refl

relative :
    resolve docker (text "wiki/../blog//docker-compose.yaml")
    ≡ at_path (text "/srv/apps/blog/docker-compose.yaml")
unfolding code
relative = refl

absolute : resolve docker (text "/a/../b") ≡ at_path (text "/a/../b")
unfolding code
absolute = refl

parent : dir (text "a/b/c.yaml") ≡ text "a/b"
unfolding code
parent = refl

above : clean (text "../x/../../y/.") ≡ text "../../y"
unfolding code
above = refl

one_runs : infer_state (some (text "exited") ∷ none ∷ some (text "Running") ∷ []) ≡ running
unfolding to_lower text_eq
one_runs = refl

none_runs : infer_state [] ≡ stopped
none_runs = refl
