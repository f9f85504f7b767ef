-- ===== src/Handlers/Specification/Environment/Preparing.antt =====
-- The lines that prepareEnv (deploy.go) makes.
use faasd.Prelude.{
  String, ◌<>◌, ◌==◌, ◌≡◌, refl, ap, ◌∙◌, true, false, not, ◌||◌, none, List, [], ◌∷◌, ◌++◌, Map,
  DistinctKeys, lookup, delete, is_some, get_or, contains_key, contains_char, String-cases,
  Option-cases, inl, inr,
}
use mathlib.Core.List.{append_assoc, append-nil}
use faasd.Handlers.Specification.{Envs, add_envs, with_fprocess, prepare_env}

-- A variable whose key and value have no `=`, and that is not PATH.
abbrev pub Clean : String × String → Type 0
Clean (k, v) =
    (contains_char "=" k ≡ false) × (contains_char "=" v ≡ false) × ((k == "PATH") ≡ false)

abbrev pub lines : Map String → List String
lines [] = []
lines ((k, v) ∷ vars) = (k <> ("=" <> v)) ∷ lines vars

abbrev add_process : Envs → String → Envs
add_process e v = record e { fprocess_found = true; fprocess = v }

abbrev add_line : Envs → String → String → Envs
add_line e k v = record e { envs = e.envs ++ (k <> ("=" <> v)) ∷ [] }

lookup-absent :
    (vars : Map String) (k : String)
    → contains_key k vars ≡ false
    → k ≡ "fprocess"
    → lookup "fprocess" vars ≡ none
unfolding contains_key
lookup-absent vars k fresh same = elim (Option-cases (lookup "fprocess" vars)) [
  | inl absent ↦ absent
  | inr (v, there) ↦ cc (fresh, ap (λ (j : String). is_some (lookup j vars)) same, there)
]

-- The loop leaves every other variable as a line, and the value of fprocess if there is one.
add_envs-eq :
    (vars : Map String) (e : Envs)
    → DistinctKeys vars
    → add_envs vars e ≡ record {
      envs = e.envs ++ lines (delete "fprocess" vars);
      fprocess_found = is_some (lookup "fprocess" vars) || e.fprocess_found;
      fprocess = get_or e.fprocess (lookup "fprocess" vars);
    }
unfolding add_envs lookup delete contains_key
add_envs-eq [] e distinct = rw (append-nil e.envs) refl
add_envs-eq ((k, v) ∷ vars) e (fresh, distinct) = elim (String-cases k "fprocess") [
  | inl (same, test) ↦
      let absent = lookup-absent vars k fresh same in
      rw test (add_envs-eq vars (add_process e v) distinct ∙ rw absent refl)
  | inr (other, test) ↦ rw test (
      add_envs-eq vars (add_line e k v) distinct
      ∙ rw (append_assoc e.envs ((k <> ("=" <> v)) ∷ []) (lines (delete "fprocess" vars))) refl)
]

pub prepare_env-eq :
    (env_process : String) (vars : Map String)
    → DistinctKeys vars
    → prepare_env env_process vars
      ≡ with_fprocess (record {
        envs = lines (delete "fprocess" vars);
        fprocess_found = is_some (lookup "fprocess" vars) || not (env_process == "");
        fprocess = get_or ("fprocess=" <> env_process) (lookup "fprocess" vars);
      })
unfolding prepare_env
prepare_env-eq env_process vars distinct = ap with_fprocess (
    add_envs-eq vars
      (record {
        envs = [];
        fprocess_found = not (env_process == "");
        fprocess = "fprocess=" <> env_process;
      })
      distinct)
