-- ===== src/Base/Occurrence.antt =====
-- Where one text stands in another: what `str::starts_with` and `str::contains` test.
use essence_agent.Base.{
  true, ◌≡◌, ◌↔◌, inl, inr, refl, ap, ◌∙◌, [], ◌∷◌, ◌++◌, arith, nat_eq, ==_iff, Bool-cases,
}
use essence_agent.Base.Text.{Codes, starts_with, contains_text}

-- The text begins with the prefix.
abbrev pub Begins : Codes → Codes → Type 0
Begins prefix text = (rest : Codes) × (text ≡ prefix ++ rest)

-- The phrase stands somewhere in the text.
abbrev pub Occurs : Codes → Codes → Type 0
Occurs phrase text = (before : Codes) × (after : Codes) × (text ≡ before ++ (phrase ++ after))

starts : (s p : Codes) → starts_with s p ≡ true → Begins p s
starts s [] h = (s, refl)
starts [] (d ∷ p) h = cc
starts (c ∷ s) (d ∷ p) h =
    let (rest, same) = starts s p (ground (arith, h)) in (rest, ground (arith, same, ==_iff c d, h))

starts-append : (p rest : Codes) → starts_with (p ++ rest) p ≡ true
starts-append [] rest = refl
starts-append (d ∷ p) rest = ground (arith, ==_iff d d, starts-append p rest)

pub starts_with_iff : (s p : Codes) → (starts_with s p ≡ true) ↔ Begins p s
starts_with_iff s p =
    (starts s p, λ (rest, same). ap (λ t. starts_with t p) same ∙ starts-append p rest)

occurs : (s p : Codes) → contains_text s p ≡ true → Occurs p s
occurs [] p h = let (rest, same) = starts [] p h in ([], rest, same)
occurs (c ∷ s) p h = elim (Bool-cases (starts_with (c ∷ s) p)) [
  | inl here ↦ let (rest, same) = starts (c ∷ s) p here in ([], rest, same)
  | inr later ↦
      let (before, after, same) = occurs s p (ground (arith, h, later)) in
      (c ∷ before, after, ap (λ t. c ∷ t) same)
]

contains_text-first : (s p : Codes) → starts_with s p ≡ true → contains_text s p ≡ true
contains_text-first [] p h = h
contains_text-first (c ∷ s) p h = ground (arith, h)

contains_text-append : (before p after : Codes) → contains_text (before ++ (p ++ after)) p ≡ true
contains_text-append [] p after = contains_text-first (p ++ after) p (starts-append p after)
contains_text-append (c ∷ before) p after = ground (arith, contains_text-append before p after)

pub contains_text_iff : (s p : Codes) → (contains_text s p ≡ true) ↔ Occurs p s
contains_text_iff s p = (
  occurs s p,
  λ (before, after, same). ap (λ t. contains_text t p) same ∙ contains_text-append before p after,
)
