-- ===== src/Prelude/Texts.antt =====
-- The operations of Go's package strings that the program uses, on native texts.
use Prim.Native.Nat.{ℕ, zero, suc, ◌/◌, ◌%◌}
use Prim.Native.Char.{Char, code}
use Prim.Native.String.{String, ◌++◌ as ◌<>◌}
use mathlib.Core.Path.{◌≡◌, refl}
use mathlib.Core.Logic.{◌≢◌, inl, inr}
use mathlib.Core.Bool.{Bool, true, false, ◌||◌}
use mathlib.Core.Option.{Option, none, some}
use mathlib.Core.List.{List, [], ◌∷◌, ◌++◌}
use native.Mathlib.Omega.{arith}
use text.Mathlib.Text.{◌==◌}
use text.Mathlib.TextEquality.{Char-path}
use text.Mathlib.TextLemmas.{nil-append, cons-append}
use faasd.Prelude.Tests.{◌==ℕ◌, ltb, if◌then◌else◌, Bool-cases}
use faasd.Prelude.Maps.{is_some}

infix 50 ◌==ᶜ◌
abbrev pub ◌==ᶜ◌ : Char → Char → Bool
c ==ᶜ d = code c ==ℕ code d

-- strings.HasPrefix, and what strings.TrimPrefix leaves then.
unfoldable pub strip_prefix : String → String → Option String
strip_prefix String.[] s = some s
strip_prefix (String.◌∷◌ p ps) String.[] = none
strip_prefix (String.◌∷◌ p ps) (String.◌∷◌ c s) =
    let rest = strip_prefix ps s in if p ==ᶜ c then rest else none

-- The two texts, with the character before them.
abbrev pub after_char : Char → Option (String × String) → Option (String × String)
after_char c none = none
after_char c (some (before, after)) = some (String.◌∷◌ c before, after)

-- The text before and after the first occurrence of a text, which is not empty.
unfoldable pub cut_at : String → String → Option (String × String)
unfolding strip_prefix
cut_at sub String.[] = none
cut_at sub (String.◌∷◌ c s) =
    let rest = cut_at sub s in
    elim (strip_prefix sub (String.◌∷◌ c s)) [
      | some after ↦ some (String.[], after)
      | none ↦ after_char c rest
    ]

-- strings.Contains for one character.
unfoldable pub contains_char : Char → String → Bool
contains_char d String.[] = false
contains_char d (String.◌∷◌ c s) = c ==ᶜ d || contains_char d s

-- The character before the first of the pieces.
abbrev pub onto_first : Char → List String → List String
onto_first c [] = String.◌∷◌ c String.[] ∷ []
onto_first c (p ∷ ps) = String.◌∷◌ c p ∷ ps

-- strings.Split at one character.
unfoldable pub split : Char → String → List String
split d String.[] = String.[] ∷ []
split d (String.◌∷◌ c s) =
    let pieces = split d s in if c ==ᶜ d then String.[] ∷ pieces else onto_first c pieces

-- strings.Join
unfoldable pub join_with : String → List String → String
join_with between [] = ""
join_with between (s ∷ []) = s
join_with between (s ∷ t ∷ ts) = s <> (between <> join_with between (t ∷ ts))

-- strings.TrimSuffix, for a suffix that is not empty.
unfoldable pub trim_suffix : String → String → String
trim_suffix suffix String.[] = String.[]
trim_suffix suffix (String.◌∷◌ c s) =
    let rest = trim_suffix suffix s in
    if String.◌∷◌ c s == suffix then String.[] else String.◌∷◌ c rest

-- The text behind the last occurrence of the character, the whole text if there is none.
unfoldable pub after_last : Char → String → String
unfolding contains_char
after_last d String.[] = String.[]
after_last d (String.◌∷◌ c s) =
    let rest = after_last d s in
    if contains_char d s then rest else if c ==ᶜ d then s else String.◌∷◌ c s

-- strings.Contains, for a text that is not empty.
unfoldable pub contains_text : String → String → Bool
unfolding cut_at
contains_text sub s = is_some (cut_at sub s)

same_char : (c d : Char) → (c ==ᶜ d) ≡ true → c ≡ d
same_char c d test = Char-path c d (ground arith)

pub strip_prefix-append : (p s : String) → strip_prefix p (p <> s) ≡ some s
unfolding strip_prefix
strip_prefix-append String.[] s = rw (nil-append s) refl
strip_prefix-append (String.◌∷◌ c p) s =
    let test : (c ==ᶜ c) ≡ true = ground arith in
    rw (cons-append c p s, test) (strip_prefix-append p s)

pub append-strip_prefix : (p s t : String) → strip_prefix p s ≡ some t → s ≡ p <> t
unfolding strip_prefix
append-strip_prefix String.[] s t h = cc (nil-append t)
append-strip_prefix (String.◌∷◌ c p) String.[] t h = cc
append-strip_prefix (String.◌∷◌ c p) (String.◌∷◌ d s) t h = elim (Bool-cases (c ==ᶜ d)) [
  | inr other ↦ cc (rw other at h)
  | inl test ↦
      let rest : s ≡ p <> t = append-strip_prefix p s t (rw test at h) in
      let same : c ≡ d = same_char c d test in cc (cons-append c p t)
]

onto_first-append :
    (c : Char) (ps qs : List String) → ps ≢ [] → onto_first c (ps ++ qs) ≡ onto_first c ps ++ qs
onto_first-append c [] qs h = absurd (h refl)
onto_first-append c (p ∷ ps) qs h = refl

onto_first-ne-nil : (c : Char) (ps : List String) → onto_first c ps ≢ []
onto_first-ne-nil c [] h = cc
onto_first-ne-nil c (p ∷ ps) h = cc

split-ne-nil : (d : Char) (s : String) → split d s ≢ []
unfolding split
split-ne-nil d String.[] h = cc
split-ne-nil d (String.◌∷◌ c s) h = elim (Bool-cases (c ==ᶜ d)) [
  | inl here ↦ cc (rw here at h)
  | inr other ↦ onto_first-ne-nil c (split d s) (rw other at h)
]

-- Two texts with the character between them are split each by itself.
pub split-append :
    (d : Char) (s t : String) → split d (s <> String.◌∷◌ d t) ≡ split d s ++ split d t
unfolding split
split-append d String.[] t =
    let test : (d ==ᶜ d) ≡ true = ground arith in rw (nil-append (String.◌∷◌ d t), test)
split-append d (String.◌∷◌ c s) t = elim (Bool-cases (c ==ᶜ d)) [
  | inl here ↦ rw (cons-append c s (String.◌∷◌ d t), here, split-append d s t)
  | inr other ↦
      rw (cons-append c s (String.◌∷◌ d t), other, split-append d s t)
        (onto_first-append c (split d s) (split d t) (split-ne-nil d s))
]

-- A text without the character is one piece.
pub split-whole : (d : Char) (s : String) → contains_char d s ≡ false → split d s ≡ s ∷ []
unfolding split contains_char
split-whole d String.[] h = refl
split-whole d (String.◌∷◌ c s) h = elim (Bool-cases (c ==ᶜ d)) [
  | inl here ↦ cc (rw here at h)
  | inr other ↦ rw (other, split-whole d s (rw other at h))
]

-- A number in decimal digits, as fmt's %d; the fuel is the number itself, and one digit more.
abbrev digit : ℕ → String
digit n =
    if n ==ℕ 0
    then "0"
    else if n ==ℕ 1
    then "1"
    else if n ==ℕ 2
    then "2"
    else if n ==ℕ 3
    then "3"
    else if n ==ℕ 4
    then "4"
    else if n ==ℕ 5
    then "5"
    else if n ==ℕ 6
    then "6"
    else if n ==ℕ 7
    then "7"
    else if n ==ℕ 8
    then "8"
    else "9"

unfoldable pub digits : ℕ → ℕ → String
digits zero n = ""
digits (suc f) n =
    let front = digits f (n / 10) in if ltb n 10 then digit n else front <> digit (n % 10)

unfoldable pub decimal : ℕ → String
unfolding digits
decimal n = digits (suc n) n
