-- ===== src/Ingress/Reading.antt =====
-- Which goals ask to read a file: `looks_like_file_read` of moxi-intent, and the capability that such a
-- goal is given.
use essence_agent.Base.{
  String, true, ◌≡◌, ◌↔◌, ◌⊎◌, inl, inr, refl, List, [], ◌∷◌, arith, Bool-cases,
}
use essence_agent.Base.Text.{codes, to_ascii_lowercase}
use essence_agent.Base.Occurrence.{Occurs, contains_text_iff}
use essence_agent.Ingress.Intent.{looks_like_file_read, or_file_read}

-- One of the words that ask for a file stands in the goal, whatever the case of its ASCII letters.
abbrev pub AsksToRead : String → Type 0
AsksToRead goal =
    let lowered = to_ascii_lowercase (codes goal) in
    Occurs (codes "read") lowered
    ⊎ (Occurs (codes "open") lowered
        ⊎ (Occurs (codes "show") lowered ⊎ Occurs (codes "inspect") lowered))

AsksToRead-iff : (goal : String) → (looks_like_file_read goal ≡ true) ↔ AsksToRead goal
unfolding looks_like_file_read
AsksToRead-iff goal =
    let lowered = to_ascii_lowercase (codes goal) in
    ground (
      arith,
      contains_text_iff lowered (codes "read"),
      contains_text_iff lowered (codes "open"),
      contains_text_iff lowered (codes "show"),
      contains_text_iff lowered (codes "inspect"),
    )

-- The capabilities are the normalized ones; where there are none, and the goal asks to read, they are
-- "file.read".
abbrev pub Requires : List String → String → List String → Type 0
Requires normalized goal required =
    ((normalized ≡ []) × AsksToRead goal × (required ≡ "file.read" ∷ []))
    ⊎ ((¬ ((normalized ≡ []) × AsksToRead goal)) × (required ≡ normalized))

pub or_file_read-Requires :
    (normalized : List String) (goal : String)
    → Requires normalized goal (or_file_read normalized goal)
or_file_read-Requires [] goal = elim (Bool-cases (looks_like_file_read goal)) [
  | inl reads ↦ inl (refl, (AsksToRead-iff goal).0 reads, rw reads refl)
  | inr other ↦
      inr (λ (_, asks). ground (arith, other, (AsksToRead-iff goal).1 asks), rw other refl)
]
or_file_read-Requires (capability ∷ normalized) goal = inr (λ (same, _). ground arith, refl)
