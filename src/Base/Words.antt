-- ===== src/Base/Words.antt =====
-- `str::split_whitespace`, and that it takes a join at single spaces apart again.
use Prim.Native.Char.{Char, code}
use Prim.Native.String.{String}
use Prim.Native.String
use Prim.Native.String.append
use mathlib.Core.Path.{◌≡◌, refl, ap, ◌∙◌}
use mathlib.Core.Logic.{inl, inr}
use mathlib.Core.Bool.{Bool, true, false, ◌&&◌, ◌||◌, not}
use mathlib.Core.List.{List, [], ◌∷◌}
use native.Mathlib.Omega.{arith}
use essence_agent.Base.Tests.{if◌then◌else◌, Bool-cases}
use essence_agent.Base.Equality.{nat_eq}
use essence_agent.Base.Lists.{All, is_empty}
use essence_agent.Base.Text.{
  is_whitespace, join, trim_text, codes, trim_start_text, trim_end_text, kept_text,
}

abbrev push : String → List String → List String
push String.[] words = words
push (String.◌∷◌ c s) words = String.◌∷◌ c s ∷ words

-- the word that the text begins with, which may be empty, and the words behind it
abbrev split : String → String × List String
split String.[] = ("", [])
split (String.◌∷◌ c s) =
    let rest = split s in
    if is_whitespace (code c) then ("", push (rest.0) (rest.1)) else (String.◌∷◌ c (rest.0), rest.1)

-- `str::split_whitespace`
unfoldable pub split_whitespace : String → List String
split_whitespace s = push (split s).0 (split s).1

abbrev no_space : String → Bool
no_space String.[] = true
no_space (String.◌∷◌ c s) = not (is_whitespace (code c)) && no_space s

abbrev pub has_letter : String → Bool
has_letter String.[] = false
has_letter (String.◌∷◌ c s) = not (is_whitespace (code c)) || has_letter s

-- A word is not empty and has no white space.
abbrev pub IsWord : String → Type 0
IsWord s = (no_space s ≡ true) × (is_empty (codes s) ≡ false)

push-IsWord :
    (s : String) (words : List String)
    → no_space s ≡ true
    → All IsWord words
    → All IsWord (push s words)
push-IsWord String.[] words h all = all
push-IsWord (String.◌∷◌ c s) words h all = ((h, refl), all)

split-IsWord : (s : String) → (no_space (split s).0 ≡ true) × All IsWord (split s).1
split-IsWord String.[] = (refl, tt)
split-IsWord (String.◌∷◌ c s) = elim (Bool-cases (is_whitespace (code c))) [
  | inl space ↦
      rw space (refl, push-IsWord (split s).0 (split s).1 (split-IsWord s).0 (split-IsWord s).1)
  | inr letter ↦ (ground (arith, letter, (split-IsWord s).0), rw letter (split-IsWord s).1)
]

pub split_whitespace-IsWord : (s : String) → All IsWord (split_whitespace s)
unfolding split_whitespace
split_whitespace-IsWord s =
    push-IsWord (split s).0 (split s).1 (split-IsWord s).0 (split-IsWord s).1

split_word : (s : String) → no_space s ≡ true → split s ≡ (s, [])
split_word String.[] h = refl
split_word (String.◌∷◌ c s) h = ground (arith, split_word s)

spaced : (t : String) → String.◌++◌ " " t ≡ String.◌∷◌ " " t
spaced t = (λ i. append.cons " " "" t i) ∙ ap (String.◌∷◌ " ") (λ i. append.nil t i)

space_char : is_whitespace (code " ") ≡ true
unfolding is_whitespace nat_eq
space_char = refl

split_space : (t : String) → split (String.◌∷◌ " " t) ≡ ("", split_whitespace t)
unfolding split_whitespace
split_space t = rw space_char refl

split_spaced :
    (s t : String)
    → no_space s ≡ true
    → split (String.◌++◌ s (String.◌++◌ " " t)) ≡ (s, split_whitespace t)
unfolding split_whitespace
split_spaced String.[] t h =
    ap split (λ i. append.nil (String.◌++◌ " " t) i) ∙ ap split (spaced t) ∙ split_space t
split_spaced (String.◌∷◌ c s) t h =
    ap split (λ i. append.cons c s (String.◌++◌ " " t) i) ∙ ground (arith, split_spaced s t)

push_word :
    (s : String) (words : List String) → is_empty (codes s) ≡ false → push s words ≡ s ∷ words
push_word String.[] words h = absurd (ground arith)
push_word (String.◌∷◌ c s) words h = refl

-- Words joined at spaces are split into the same words.
pub split_whitespace-join :
    (words : List String) → All IsWord words → split_whitespace (join " " words) ≡ words
unfolding split_whitespace
split_whitespace-join [] all = refl
split_whitespace-join (w ∷ []) ((dark, nonempty), all) =
    ground (arith, split_word w dark, push_word w [] nonempty)
split_whitespace-join (w ∷ v ∷ rest) ((dark, nonempty), all) = ground (
  arith,
  split_spaced w (join " " (v ∷ rest)) dark,
  push_word w (v ∷ rest) nonempty,
  split_whitespace-join (v ∷ rest) all,
)

has_letter-push :
    (s : String) (words : List String)
    → is_empty (push s words) ≡ (is_empty (codes s) && is_empty words)
has_letter-push String.[] words = refl
has_letter-push (String.◌∷◌ c s) words = refl

unsplit : (s : String) → is_empty (push (split s).0 (split s).1) ≡ not (has_letter s)
unsplit String.[] = refl
unsplit (String.◌∷◌ c s) = elim (Bool-cases (is_whitespace (code c))) [
  | inl space ↦ rw space (unsplit s)
  | inr letter ↦ rw letter refl
]

-- A text without a word is one of white space.
pub split_whitespace-is_empty : (s : String) → is_empty (split_whitespace s) ≡ not (has_letter s)
unfolding split_whitespace
split_whitespace-is_empty s = unsplit s

has_letter-trim_start : (s : String) → has_letter (trim_start_text s) ≡ has_letter s
has_letter-trim_start String.[] = refl
has_letter-trim_start (String.◌∷◌ c s) = ground (arith, has_letter-trim_start s)

kept-is_empty :
    (c : Char) (s : String)
    → is_empty (codes (kept_text c s)) ≡ (is_whitespace (code c) && is_empty (codes s))
kept-is_empty c String.[] = elim (Bool-cases (is_whitespace (code c))) [
  | inl space ↦ rw space refl
  | inr letter ↦ rw letter refl
]
kept-is_empty c (String.◌∷◌ d s) = ground arith

trim_end-is_empty : (s : String) → is_empty (codes (trim_end_text s)) ≡ not (has_letter s)
trim_end-is_empty String.[] = refl
trim_end-is_empty (String.◌∷◌ c s) =
    ground (arith, trim_end-is_empty s, kept-is_empty c (trim_end_text s))

-- A trimmed text is empty where it was white space.
pub trim_text-is_empty : (s : String) → is_empty (codes (trim_text s)) ≡ not (has_letter s)
unfolding trim_text
trim_text-is_empty s = trim_end-is_empty (trim_start_text s) ∙ ap not (has_letter-trim_start s)
