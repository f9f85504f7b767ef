-- ===== src/Handlers/Specification/Environment/Parsing.antt =====
-- What readEnvFromProcessEnv (functions.go) finds in such lines.
use faasd.Prelude.{
  String, ◌<>◌, ◌==◌, ◌≡◌, refl, ap, ◌∙◌, subst, false, some, List, [], ◌∷◌, ◌++◌, Map, All, lookup,
  insert, delete, contains_key, lookup-delete, contains_char, split, split-append, split-whole,
  eq_refl, String-cases, Bool-cases, inl, inr,
}
use text.Mathlib.TextLemmas.{nil-append, cons-append, append_assoc as text_assoc}
use faasd.Handlers.Specification.{copy_labels, read_envs, add_found}
use faasd.Handlers.Specification.Environment.Preparing.{Clean, lines}

split-line :
    (k v : String) → contains_char "=" k ≡ false → split "=" (k <> ("=" <> v)) ≡ k ∷ split "=" v
split-line k v clean =
    ap (λ (s : String). split "=" (k <> s))
      (cons-append "=" String.[] v ∙ ap (String.◌∷◌ "=") (nil-append v))
    ∙ split-append "=" k v
    ∙ rw (split-whole "=" k clean) refl

split-pair :
    (k v : String)
    → contains_char "=" k ≡ false
    → contains_char "=" v ≡ false
    → split "=" (k <> ("=" <> v)) ≡ k ∷ v ∷ []
split-pair k v key value =
    split-line k v key ∙ ap (λ (vs : List String). k ∷ vs) (split-whole "=" v value)

pub read_envs-append :
    (xs ys : List String) (found : Map String × String)
    → read_envs (xs ++ ys) found ≡ read_envs ys (read_envs xs found)
unfolding read_envs
read_envs-append [] ys found = refl
read_envs-append (x ∷ xs) ys found = read_envs-append xs ys (add_found (split "=" x) found)

add_found-line :
    (k v process : String) (found : Map String)
    → Clean (k, v)
    → (k == "fprocess") ≡ false
    → add_found (split "=" (k <> ("=" <> v))) (found, process) ≡ (insert k v found, process)
add_found-line k v process found (plain_key, plain_value, path) other =
    ap (λ (parts : List String). add_found parts (found, process))
      (split-pair k v plain_key plain_value)
    ∙ rw (path, other) refl

-- Lines of other variables than fprocess are all found.
pub read_envs-lines :
    (vars found : Map String) (process : String)
    → All Clean vars
    → contains_key "fprocess" vars ≡ false
    → read_envs (lines vars) (found, process) ≡ (copy_labels vars found, process)
unfolding read_envs copy_labels contains_key lookup
read_envs-lines [] found process clean absent = refl
read_envs-lines ((k, v) ∷ vars) found process (clean, rest) absent =
    elim (String-cases k "fprocess") [
      | inl (same, test) ↦ cc (rw test at absent)
      | inr (other, test) ↦
          ap (read_envs (lines vars)) (add_found-line k v process found clean test)
          ∙ read_envs-lines vars (insert k v found) process rest (rw test at absent)
    ]

-- The last line, where there is a process.
fprocess-plain : contains_char "=" "fprocess" ≡ false
unfolding contains_char
fprocess-plain = refl

pub read_envs-process :
    (process : String) (found : Map String)
    → contains_char "=" process ≡ false
    → read_envs (("fprocess=" <> process) ∷ []) (found, "") ≡ (found, process)
unfolding read_envs
read_envs-process process found clean =
    ap (λ (s : String). add_found (split "=" s) (found, "")) (text_assoc "fprocess" "=" process)
    ∙ ap (λ (parts : List String). add_found parts (found, ""))
        (split-pair "fprocess" process fprocess-plain clean)

pub read_envs-bare :
    (value : String) (found : Map String)
    → contains_char "=" value ≡ false
    → read_envs (value ∷ []) (found, "") ≡ (found, "")
unfolding read_envs
read_envs-bare value found clean =
    ap (λ (parts : List String). add_found parts (found, "")) (split-whole "=" value clean)

pub delete-Clean : (vars : Map String) → All Clean vars → All Clean (delete "fprocess" vars)
unfolding delete
delete-Clean [] clean = tt
delete-Clean ((k, v) ∷ vars) (clean, rest) = elim (Bool-cases (k == "fprocess")) [
  | inl test ↦ rw test (delete-Clean vars rest)
  | inr test ↦ rw test (clean, delete-Clean vars rest)
]

pub lookup-Clean :
    (vars : Map String) (k v : String)
    → All Clean vars
    → lookup k vars ≡ some v
    → contains_char "=" v ≡ false
unfolding lookup
lookup-Clean [] k v clean there = cc
lookup-Clean ((j, w) ∷ vars) k v ((plain_key, plain_value, path), rest) there =
    elim (Bool-cases (j == k)) [
      | inl test ↦
          let same : w ≡ v = cc (rw test at there) in
          subst (λ (x : String). contains_char "=" x ≡ false) same plain_value
      | inr test ↦ lookup-Clean vars k v rest (rw test at there)
    ]

pub contains-delete_self : (k : String) (vars : Map String) → contains_key k (delete k vars) ≡ false
unfolding contains_key
contains-delete_self k vars = rw (lookup-delete k k vars, eq_refl k) refl

-- What is read from the lines of the other variables and one line more.
pub read_envs-lines_and :
    (vars : Map String) (line process : String)
    → All Clean vars
    → ((found : Map String) → read_envs (line ∷ []) (found, "") ≡ (found, process))
    → read_envs (lines (delete "fprocess" vars) ++ line ∷ []) ([], "")
      ≡ (copy_labels (delete "fprocess" vars) [], process)
read_envs-lines_and vars line process clean last =
    read_envs-append (lines (delete "fprocess" vars)) (line ∷ []) ([], "")
    ∙ ap (read_envs (line ∷ [])) (
        read_envs-lines (delete "fprocess" vars) [] "" (delete-Clean vars clean)
          (contains-delete_self "fprocess" vars))
    ∙ last (copy_labels (delete "fprocess" vars) [])
