-- ===== src/Handlers/Specification/Environment.antt =====
-- The environment of a function (prepareEnv of deploy.go) and its reading (readEnvFromProcessEnv of
-- functions.go).
pub mod Preparing
pub mod Parsing
use faasd.Prelude.{
  String, ◌<>◌, ◌==◌, ◌≡◌, refl, ap, ◌∙◌, subst, true, false, not, ◌||◌, none, some, List, [], ◌∷◌,
  ◌++◌, Map, DistinctKeys, All, lookup, insert, delete, is_some, get_or, contains_key,
  lookup-delete, if◌then◌else◌, contains_char, split, split-append, split-whole, arith, eq_iff,
  eq_refl, String-cases, Bool-cases, Option-cases, inl, inr,
}
use mathlib.Core.List.{append_assoc, append-nil}
use text.Mathlib.TextLemmas.{nil-append, cons-append, append_assoc as text_assoc}
use faasd.Handlers.Specification.{
  copy_labels, Envs, add_envs, with_fprocess, prepare_env, read_envs, add_found,
  read_env_from_process_env,
}
use faasd.Handlers.Specification.Labels.Building.{lookup-copied}
use faasd.Handlers.Specification.Environment.Preparing.{Clean, lines, prepare_env-eq}
use faasd.Handlers.Specification.Environment.Parsing.{
  read_envs-lines, read_envs-process, read_envs-bare, delete-Clean, lookup-Clean,
  contains-delete_self, read_envs-lines_and,
}

module _ (env_process : String) (vars : Map String) (distinct : DistinctKeys vars)
    (clean : All Clean vars) (plain : contains_char "=" env_process ≡ false) where
  env-none :
      lookup "fprocess" vars ≡ none
      → (env_process == "") ≡ true
      → prepare_env env_process vars ≡ lines (delete "fprocess" vars)
  env-none absent test = prepare_env-eq env_process vars distinct ∙ rw (absent, test) refl

  env-process :
      lookup "fprocess" vars ≡ none
      → (env_process == "") ≡ false
      → prepare_env env_process vars
        ≡ lines (delete "fprocess" vars) ++ ("fprocess=" <> env_process) ∷ []
  env-process absent test = prepare_env-eq env_process vars distinct ∙ rw (absent, test) refl

  env-bare :
      (v : String)
      → lookup "fprocess" vars ≡ some v
      → prepare_env env_process vars ≡ lines (delete "fprocess" vars) ++ v ∷ []
  env-bare v there = prepare_env-eq env_process vars distinct ∙ rw there refl

  read-process :
      lookup "fprocess" vars ≡ none
      → read_env_from_process_env (prepare_env env_process vars)
        ≡ (copy_labels (delete "fprocess" vars) [], env_process)
  unfolding read_env_from_process_env
  read-process absent = elim (String-cases env_process "") [
    | inl (same, test) ↦
        ap (λ (env : List String). read_envs env ([], "")) (env-none absent test)
        ∙ read_envs-lines (delete "fprocess" vars) [] "" (delete-Clean vars clean)
            (contains-delete_self "fprocess" vars)
        ∙ rw same refl
    | inr (other, test) ↦
        ap (λ (env : List String). read_envs env ([], "")) (env-process absent test)
        ∙ read_envs-lines_and vars ("fprocess=" <> env_process) env_process clean
            (λ found. read_envs-process env_process found plain)
  ]

  read-bare :
      (v : String)
      → lookup "fprocess" vars ≡ some v
      → read_env_from_process_env (prepare_env env_process vars)
        ≡ (copy_labels (delete "fprocess" vars) [], "")
  unfolding read_env_from_process_env
  read-bare v there =
      ap (λ (env : List String). read_envs env ([], "")) (env-bare v there)
      ∙ read_envs-lines_and vars v "" clean
          (λ found. read_envs-bare v found (lookup-Clean vars "fprocess" v clean there))

delete-DistinctKeys :
    (k : String) (vars : Map String) → DistinctKeys vars → DistinctKeys (delete k vars)
unfolding delete contains_key
delete-DistinctKeys k [] distinct = tt
delete-DistinctKeys k ((j, v) ∷ vars) (fresh, distinct) = elim (String-cases j k) [
  | inl (same, test) ↦ rw test (delete-DistinctKeys k vars distinct)
  | inr (other, test) ↦ rw test (
    rw (lookup-delete k j vars) (ground (arith, eq_iff k j, eq_iff j k)),
    delete-DistinctKeys k vars distinct,
  )
]

-- Where each variable stands once, no key and no value of a variable has a `=`, nor has the
-- process, and no variable is PATH, readEnvFromProcessEnv of what prepareEnv makes gives every
-- variable but fprocess back with its value, and no other; the process comes back where there is
-- no variable fprocess, and where there is one no process comes back at all.
pub prepare_env-round_trip :
    (env_process : String) (vars : Map String) (k : String)
    → DistinctKeys vars
    → All Clean vars
    → contains_char "=" env_process ≡ false
    → (lookup k (read_env_from_process_env (prepare_env env_process vars)).0
        ≡ (if "fprocess" == k then none else lookup k vars))
      × ((read_env_from_process_env (prepare_env env_process vars)).1
          ≡ (if contains_key "fprocess" vars then "" else env_process))
unfolding contains_key
prepare_env-round_trip env_process vars k distinct clean plain =
    elim (Option-cases (lookup "fprocess" vars)) [
      | inl absent ↦
          let read = read-process env_process vars distinct clean plain absent in
          (
            ap (λ (r : Map String × String). lookup k r.0) read ∙ copied,
            ap (λ (r : Map String × String). r.1) read ∙ rw absent refl,
          )
      | inr (v, there) ↦
          let read = read-bare env_process vars distinct clean plain v there in
          (
            ap (λ (r : Map String × String). lookup k r.0) read ∙ copied,
            ap (λ (r : Map String × String). r.1) read ∙ rw there refl,
          )
    ]
  where
    copied :
        lookup k (copy_labels (delete "fprocess" vars) [])
        ≡ (if "fprocess" == k then none else lookup k vars)
    copied =
        lookup-copied (delete "fprocess" vars) (delete-DistinctKeys "fprocess" vars distinct) k
        ∙ lookup-delete "fprocess" k vars
