-- ===== src/Base/Text.antt =====
-- What the source uses of Rust's `str`, over the code points of a text.
use Prim.Native.Char.{Char, code}
use Prim.Native.String.{String}
use Prim.Native.String
use mathlib.Core.Path.{◌≡◌, refl, ap, ◌∙◌}
use mathlib.Core.Logic.{inl, inr}
use mathlib.Core.Bool.{Bool, true, false, ◌&&◌, ◌||◌, not}
use mathlib.Core.Option.{Option, none, some}
use mathlib.Core.List.{List, [], ◌∷◌, map, reverse}
use Prim.Native.Nat.{ℕ, ◌+◌}
use native.Mathlib.Omega.{arith}
use essence_agent.Base.Tests.{leb, if◌then◌else◌, Bool-cases}
use essence_agent.Base.Equality.{◌==◌, nat_eq}

abbrev pub Codes : Type 0
Codes = List ℕ

-- `str::chars`
abbrev pub codes : String → Codes
codes String.[] = []
codes (String.◌∷◌ c s) = code c ∷ codes s

-- the pieces of a `format!`
abbrev pub concat : List String → String
concat [] = ""
concat (s ∷ rest) = String.◌++◌ s (concat rest)

-- `[String]::join`
abbrev pub join : String → List String → String
join sep [] = ""
join sep (s ∷ []) = s
join sep (s ∷ rest) = String.◌++◌ s (String.◌++◌ sep (join sep rest))

abbrev between : ℕ → ℕ → ℕ → Bool
between lo hi c = leb lo c && leb c hi

-- `char::is_whitespace`: the code points with the Unicode property White_Space
unfoldable pub is_whitespace : ℕ → Bool
is_whitespace c =
    between 0x9 0xd c
    || c == 0x20
    || c == 0x85
    || c == 0xa0
    || c == 0x1680
    || between 0x2000 0x200a c
    || c == 0x2028
    || c == 0x2029
    || c == 0x202f
    || c == 0x205f
    || c == 0x3000

abbrev pub trim_start : Codes → Codes
trim_start [] = []
trim_start (c ∷ s) = if is_whitespace c then trim_start s else c ∷ s

abbrev kept : ℕ → Codes → Codes
kept c [] = if is_whitespace c then [] else c ∷ []
kept c (d ∷ s) = c ∷ d ∷ s

abbrev pub trim_end : Codes → Codes
trim_end [] = []
trim_end (c ∷ s) = kept c (trim_end s)

-- `str::trim`
unfoldable pub trim : Codes → Codes
trim s = trim_end (trim_start s)

-- the same on a text
abbrev pub trim_start_text : String → String
trim_start_text String.[] = ""
trim_start_text (String.◌∷◌ c s) =
    if is_whitespace (code c) then trim_start_text s else String.◌∷◌ c s

abbrev pub kept_text : Char → String → String
kept_text c String.[] = if is_whitespace (code c) then "" else String.◌∷◌ c ""
kept_text c (String.◌∷◌ d s) = String.◌∷◌ c (String.◌∷◌ d s)

abbrev pub trim_end_text : String → String
trim_end_text String.[] = ""
trim_end_text (String.◌∷◌ c s) = kept_text c (trim_end_text s)

unfoldable pub trim_text : String → String
trim_text s = trim_end_text (trim_start_text s)

abbrev pub to_lower : ℕ → ℕ
to_lower c = if between b'A' b'Z' c then c + 32 else c

-- `str::to_ascii_lowercase`
unfoldable pub to_ascii_lowercase : Codes → Codes
to_ascii_lowercase = map to_lower

-- `str::starts_with`
abbrev pub starts_with : Codes → Codes → Bool
starts_with s [] = true
starts_with [] (p ∷ ps) = false
starts_with (c ∷ s) (p ∷ ps) = c == p && starts_with s ps

-- `str::ends_with`
unfoldable pub ends_with : Codes → Codes → Bool
ends_with s suffix = starts_with (reverse s) (reverse suffix)

-- `str::contains`
abbrev pub contains_text : Codes → Codes → Bool
contains_text [] p = starts_with [] p
contains_text (c ∷ s) p = starts_with (c ∷ s) p || contains_text s p

-- `str::strip_prefix`: the rest behind the prefix
abbrev pub strip_prefix : Codes → Codes → Option Codes
strip_prefix s [] = some s
strip_prefix [] (p ∷ ps) = none
strip_prefix (c ∷ s) (p ∷ ps) = if c == p then strip_prefix s ps else none

-- `str::strip_suffix` of one character
abbrev pub strip_last : ℕ → Codes → Option Codes
strip_last p [] = none
strip_last p (c ∷ []) = if c == p then some [] else none
strip_last p (c ∷ rest) = elim (strip_last p rest) [ none ↦ none | some s ↦ some (c ∷ s) ]

-- equal texts, code point by code point
abbrev pub same_text : Codes → Codes → Bool
same_text [] [] = true
same_text (c ∷ s) (d ∷ t) = c == d && same_text s t
same_text _ _ = false

-- `char::is_ascii_hexdigit` and not `char::is_ascii_uppercase`
abbrev pub is_lower_hex : ℕ → Bool
is_lower_hex c =
    (between b'0' b'9' c || between b'a' b'f' c || between b'A' b'F' c) && not (between b'A' b'Z' c)

to_lower_idem : (c : ℕ) → to_lower (to_lower c) ≡ to_lower c
to_lower_idem c = ground arith

-- Lowering twice is lowering once.
pub to_ascii_lowercase_idem :
    (s : Codes) → to_ascii_lowercase (to_ascii_lowercase s) ≡ to_ascii_lowercase s
unfolding to_ascii_lowercase
to_ascii_lowercase_idem [] = cc
to_ascii_lowercase_idem (c ∷ s) = cc (to_lower_idem c, to_ascii_lowercase_idem s)

codes-trim_start_text : (s : String) → codes (trim_start_text s) ≡ trim_start (codes s)
codes-trim_start_text String.[] = ground arith
codes-trim_start_text (String.◌∷◌ c s) = elim (Bool-cases (is_whitespace (code c))) [
  | inl space ↦ rw space (codes-trim_start_text s)
  | inr other ↦ rw other refl
]

codes-kept_text : (c : Char) (s : String) → codes (kept_text c s) ≡ kept (code c) (codes s)
codes-kept_text c String.[] = elim (Bool-cases (is_whitespace (code c))) [
  | inl space ↦ rw space refl
  | inr other ↦ rw other refl
]
codes-kept_text c (String.◌∷◌ d s) = refl

codes-trim_end_text : (s : String) → codes (trim_end_text s) ≡ trim_end (codes s)
codes-trim_end_text String.[] = refl
codes-trim_end_text (String.◌∷◌ c s) =
    codes-kept_text c (trim_end_text s) ∙ ap (kept (code c)) (codes-trim_end_text s)

-- The code points of a trimmed text are the trimmed code points.
pub codes-trim_text : (s : String) → codes (trim_text s) ≡ trim (codes s)
unfolding trim_text trim
codes-trim_text s = codes-trim_end_text (trim_start_text s) ∙ ap trim_end (codes-trim_start_text s)
