-- ===== src/Prelude/Paths.antt =====
-- Go's package path: Clean and Join, with the parts of a path kept as a stack.
use Prim.Native.Char.{Char}
use Prim.Native.String.{String, ◌++◌ as ◌<>◌}
use mathlib.Core.Path.{◌≡◌, refl, ap, ◌∙◌}
use mathlib.Core.Logic.{inl, inr}
use mathlib.Core.Bool.{Bool, true, false, ◌||◌}
use mathlib.Core.List.{List, [], ◌∷◌, ◌++◌, reverse}
use text.Mathlib.Text.{◌==◌}
use text.Mathlib.TextLemmas.{cons-append, nil-append, cons-ne-nil}
use text.Mathlib.TextEquality.{eq_iff}
use faasd.Prelude.Tests.{if◌then◌else◌, Bool-cases}
use faasd.Prelude.Texts.{◌==ᶜ◌, contains_char, split, join_with, split-append, split-whole}

abbrev pub slash : Char
slash = "/"

abbrev pub is_rooted : String → Bool
is_rooted String.[] = false
is_rooted (String.◌∷◌ c s) = c ==ᶜ slash

-- The part `..` on a stack of parts, the innermost first.
abbrev pub leave : Bool → List String → List String
leave rooted [] = if rooted then [] else ".." ∷ []
leave rooted (top ∷ below) = if top == ".." then ".." ∷ top ∷ below else below

abbrev pub enter : Bool → List String → String → List String
enter rooted stack part =
    if part == "" || part == "."
    then stack
    else if part == ".."
    then leave rooted stack
    else part ∷ stack

unfoldable pub walk : Bool → List String → List String → List String
walk rooted stack [] = stack
walk rooted stack (part ∷ parts) = walk rooted (enter rooted stack part) parts

abbrev pub print_path : Bool → List String → String
print_path true parts = "/" <> join_with "/" parts
print_path false [] = "."
print_path false (part ∷ parts) = join_with "/" (part ∷ parts)

-- The parts of a path that path.Clean leaves.
unfoldable pub clean_parts : String → List String
unfolding walk split
clean_parts s = walk (is_rooted s) [] (split slash s)

-- path.Clean
unfoldable pub clean : String → String
unfolding clean_parts
clean s = if s == "" then "." else print_path (is_rooted s) (reverse (clean_parts s))

-- path.Join of two elements
unfoldable pub path_join : String → String → String
unfolding clean
path_join base name =
    if base == "" then if name == "" then "" else clean name else clean (base <> ("/" <> name))

pub walk-append :
    (rooted : Bool) (stack ps qs : List String)
    → walk rooted stack (ps ++ qs) ≡ walk rooted (walk rooted stack ps) qs
unfolding walk
walk-append rooted stack [] qs = refl
walk-append rooted stack (p ∷ ps) qs = walk-append rooted (enter rooted stack p) ps qs

-- A name that is one part of a path, and neither of the two special ones.
pub record IsPlain (name : String) : Type 0 where
  pub one_part : contains_char slash name ≡ false
  pub not_empty : (name == "") ≡ false
  pub not_here : (name == ".") ≡ false
  pub not_above : (name == "..") ≡ false

enter-plain :
    (rooted : Bool) (stack : List String) (name : String)
    → IsPlain name
    → enter rooted stack name ≡ name ∷ stack
enter-plain rooted stack name plain = rw (plain.not_empty, plain.not_here, plain.not_above) refl

is_rooted-append : (s t : String) → is_rooted s ≡ true → is_rooted (s <> t) ≡ true
is_rooted-append String.[] t h = cc
is_rooted-append (String.◌∷◌ c s) t h = rw (cons-append c s t) h

-- The parts of a rooted path with something below it: those of the path are walked on from.
pub clean_parts-below :
    (base name : String)
    → is_rooted base ≡ true
    → clean_parts (base <> ("/" <> name)) ≡ walk true (clean_parts base) (split slash name)
unfolding clean_parts
clean_parts-below base name rooted =
    rw (is_rooted-append base ("/" <> name) rooted, rooted)
      (ap (λ (s : String). walk true [] (split slash (base <> s))) slash_first
        ∙ ap (walk true []) (split-append slash base name)
        ∙ walk-append true [] (split slash base) (split slash name))
  where
    slash_first : "/" <> name ≡ String.◌∷◌ slash name
    slash_first = cons-append slash String.[] name ∙ ap (String.◌∷◌ slash) (nil-append name)

walk-plain :
    (stack : List String) (name : String)
    → IsPlain name
    → walk true stack (name ∷ []) ≡ name ∷ stack
unfolding walk
walk-plain stack name plain = enter-plain true stack name plain

-- Joined with a plain name, a rooted path has that name as its last part.
pub clean_parts-plain :
    (base name : String)
    → is_rooted base ≡ true
    → IsPlain name
    → clean_parts (base <> ("/" <> name)) ≡ name ∷ clean_parts base
clean_parts-plain base name rooted plain =
    clean_parts-below base name rooted
    ∙ ap (walk true (clean_parts base)) (split-whole slash name plain.one_part)
    ∙ walk-plain (clean_parts base) name plain

is_rooted-ne-empty : (s : String) → is_rooted s ≡ true → (s == "") ≡ false
is_rooted-ne-empty String.[] h = cc
is_rooted-ne-empty (String.◌∷◌ c s) h = elim (Bool-cases (String.◌∷◌ c s == "")) [
  | inl e ↦ absurd (cons-ne-nil c s ((eq_iff (String.◌∷◌ c s) "").0 e))
  | inr e ↦ e
]

-- What path.Join makes of a rooted path and a name.
pub path_join-rooted :
    (base name : String)
    → is_rooted base ≡ true
    → path_join base name ≡ print_path true (reverse (clean_parts (base <> ("/" <> name))))
unfolding path_join clean
path_join-rooted base name rooted =
    rw (is_rooted-ne-empty base rooted)
      (rw (is_rooted-ne-empty (base <> ("/" <> name)) both) (rw both refl))
  where
    both : is_rooted (base <> ("/" <> name)) ≡ true
    both = is_rooted-append base ("/" <> name) rooted
