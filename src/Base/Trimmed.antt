-- ===== src/Base/Trimmed.antt =====
-- Trimming a trimmed text changes nothing.
use Prim.Native.Char.{Char, code}
use Prim.Native.String.{String}
use mathlib.Core.Path.{◌≡◌, refl, ap, ◌∙◌}
use mathlib.Core.Logic.{inl, inr}
use mathlib.Core.Bool.{Bool, true, false, not}
use native.Mathlib.Omega.{arith}
use essence_agent.Base.Tests.{Bool-cases}
use essence_agent.Base.Text.{is_whitespace, trim_text, trim_start_text, trim_end_text, kept_text}

-- The text does not begin with white space.
abbrev is_flush : String → Bool
is_flush String.[] = true
is_flush (String.◌∷◌ c s) = not (is_whitespace (code c))

trim_start-is_flush : (s : String) → is_flush (trim_start_text s) ≡ true
trim_start-is_flush String.[] = refl
trim_start-is_flush (String.◌∷◌ c s) = elim (Bool-cases (is_whitespace (code c))) [
  | inl space ↦ rw space (trim_start-is_flush s)
  | inr letter ↦ ground (arith, letter)
]

flush_start : (s : String) → is_flush s ≡ true → trim_start_text s ≡ s
flush_start String.[] h = refl
flush_start (String.◌∷◌ c s) h = ground (arith, h)

flush_kept :
    (c : Char) (s : String) → is_whitespace (code c) ≡ false → is_flush (kept_text c s) ≡ true
flush_kept c String.[] h = ground (arith, h)
flush_kept c (String.◌∷◌ d s) h = ground (arith, h)

flush_end : (s : String) → is_flush s ≡ true → is_flush (trim_end_text s) ≡ true
flush_end String.[] h = refl
flush_end (String.◌∷◌ c s) h = flush_kept c (trim_end_text s) (ground (arith, h))

end_kept :
    (c : Char) (s : String) → trim_end_text s ≡ s → trim_end_text (kept_text c s) ≡ kept_text c s
end_kept c String.[] h = elim (Bool-cases (is_whitespace (code c))) [
  | inl space ↦ rw space refl
  | inr letter ↦ ground (arith, letter)
]
end_kept c (String.◌∷◌ d s) h = ap (kept_text c) h

trim_end_idem : (s : String) → trim_end_text (trim_end_text s) ≡ trim_end_text s
trim_end_idem String.[] = refl
trim_end_idem (String.◌∷◌ c s) = end_kept c (trim_end_text s) (trim_end_idem s)

pub trim_text_idem : (s : String) → trim_text (trim_text s) ≡ trim_text s
unfolding trim_text
trim_text_idem s =
    ap trim_end_text (
      flush_start (trim_end_text (trim_start_text s))
        (flush_end (trim_start_text s) (trim_start-is_flush s)))
    ∙ trim_end_idem (trim_start_text s)
