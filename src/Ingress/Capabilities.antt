-- ===== src/Ingress/Capabilities.antt =====
-- The lists of capabilities that `normalize_capabilities` of moxi-entry and `compile_capabilities` of
-- moxi-intent make.
use essence_agent.Base.{
  contains-append, String, Bool, true, false, ◌≡◌, ◌⊎◌, inl, inr, refl, sym, ap, ◌∙◌, List, [], ◌∷◌,
  ◌++◌, map, any, arith, All, is_empty, contains, string_eq, nat_eq, ◌&&◌, ◌==◌, ==-refl, ==_iff,
  ◌||◌, Bool-cases, subst,
}
use mathlib.Core.List.{append-nil, append_assoc}
use essence_agent.Base.Text.{codes, trim_text, is_whitespace}
use essence_agent.Base.Trimmed.{trim_text_idem}
use essence_agent.Base.Outcome.Pure.{ok, err}
use essence_agent.Ingress.Entry.{push_new, push_trimmed, normalize_capabilities, empty_capability}
use essence_agent.Ingress.Intent.{compile_capabilities, or_file_read, looks_like_file_read}
use essence_agent.Ingress.Intent
use essence_agent.Ingress.Reading.{Requires, or_file_read-Requires}

-- A capability that is trimmed and not empty.
abbrev pub IsClean : String → Type 0
IsClean capability = (trim_text capability ≡ capability) × (is_empty (codes capability) ≡ false)

-- No text stands twice in the list.
abbrev pub IsDistinct : List String → Type 0
IsDistinct [] = Unit
IsDistinct (x ∷ xs) = (contains xs x ≡ false) × IsDistinct xs

abbrev pub is_blank : String → Bool
is_blank s = is_empty (codes (trim_text s))

All-append : (P : String → Type 0) (xs ys : List String) → All P xs → All P ys → All P (xs ++ ys)
All-append P [] ys f g = g
All-append P (x ∷ xs) ys (p, f) g = (p, All-append P xs ys f g)

IsDistinct-append :
    (xs : List String) (c : String)
    → IsDistinct xs
    → contains xs c ≡ false
    → IsDistinct (xs ++ c ∷ [])
IsDistinct-append [] c d h = (refl, tt)
IsDistinct-append (x ∷ xs) c (first, d) h = (
  ground (arith, contains-append xs (c ∷ []) x, first, h, ==_iff x c, ==_iff c x),
  IsDistinct-append xs c d (ground (arith, h)),
)

middle_new :
    (xs : List String) (c : String) (rest : List String)
    → IsDistinct (xs ++ c ∷ rest)
    → contains xs c ≡ false
middle_new [] c rest distinct = refl
middle_new (x ∷ xs) c rest (first, distinct) = ground (
  arith,
  middle_new xs c rest distinct,
  contains-append xs (c ∷ rest) x,
  first,
  ==_iff x c,
  ==-refl c,
)

module _ (normalized : List String) (capability : String) where
  push_new-IsClean :
      All IsClean normalized
      → is_blank capability ≡ false
      → All IsClean (push_new normalized (trim_text capability))
  push_new-IsClean clean h = elim (Bool-cases (contains normalized (trim_text capability))) [
    | inl known ↦ rw known clean
    | inr new ↦ rw new (
        All-append IsClean normalized (trim_text capability ∷ []) clean
          ((trim_text_idem capability, h), tt))
  ]

  push_new-IsDistinct :
      IsDistinct normalized → IsDistinct (push_new normalized (trim_text capability))
  push_new-IsDistinct distinct = elim (Bool-cases (contains normalized (trim_text capability))) [
    | inl known ↦ rw known distinct
    | inr new ↦ rw new (IsDistinct-append normalized (trim_text capability) distinct new)
  ]

push_new-contains :
    (normalized : List String) (capability c : String)
    → contains (push_new normalized capability) c ≡ (contains normalized c || capability == c)
push_new-contains normalized capability c = elim (Bool-cases (contains normalized capability)) [
  | inl known ↦ rw known (ground (arith, known, ==_iff capability c))
  | inr new ↦ rw new (contains-append normalized (capability ∷ []) c ∙ ground arith)
]

module _ {E : Type 0} (empty : E) where
  -- What the loop makes of the rest of a list, from what it has gathered.
  abbrev Gathers : List String → List String → Type 0
  Gathers normalized requested =
      ((gathered : List String) × (push_trimmed empty normalized requested ≡ ok gathered)
        × (any is_blank requested ≡ false)
        × All IsClean gathered
        × IsDistinct gathered
        × ((c : String)
            → contains gathered c
              ≡ (contains normalized c || contains (map trim_text requested) c)))
      ⊎ ((push_trimmed empty normalized requested ≡ err empty) × (any is_blank requested ≡ true))

  or_none : (b : Bool) → b ≡ (b || false)
  or_none b = ground arith

  gather :
      (normalized requested : List String)
      → All IsClean normalized
      → IsDistinct normalized
      → Gathers normalized requested
  unfolding push_trimmed
  gather normalized [] clean distinct =
      inl (normalized, refl, refl, clean, distinct, λ c. or_none (contains normalized c))
  gather normalized (capability ∷ rest) clean distinct = elim (Bool-cases (is_blank capability)) [
    | inl blank ↦ inr (ground (arith, blank))
    | inr given ↦
        elim (gather (push_new normalized (trim_text capability)) rest
          (push_new-IsClean normalized capability clean given)
          (push_new-IsDistinct normalized capability distinct)) [
            | inl (gathered, made, none_blank, all, each, members) ↦ inl (
              gathered,
              ground (arith, given, made),
              ground (arith, given, none_blank),
              all,
              each,
              λ c.
                  members c ∙ ground (arith, push_new-contains normalized (trim_text capability) c),
            )
            | inr (failed, some_blank) ↦ inr (ground (arith, given, failed, some_blank))
          ]
  ]

  -- Clean and distinct capabilities are gathered as they are.
  gather_clean :
      (normalized requested : List String)
      → All IsClean requested
      → IsDistinct (normalized ++ requested)
      → push_trimmed empty normalized requested ≡ ok (normalized ++ requested)
  unfolding push_trimmed
  gather_clean normalized [] clean distinct = ap ok (sym (append-nil normalized))
  gather_clean normalized (c ∷ rest) ((trimmed, given), clean) distinct =
      let new = middle_new normalized c rest distinct in
      let behind =
        gather_clean (normalized ++ c ∷ []) rest clean
          (subst IsDistinct (sym (append_assoc normalized (c ∷ []) rest)) distinct) in
      rw trimmed (rw given (rw new (behind ∙ ap ok (append_assoc normalized (c ∷ []) rest))))

-- `normalize_capabilities` fails exactly where a capability is blank. Otherwise its list has the
-- capabilities that were requested, trimmed, each of them once, and no others.
pub normalize_capabilities_lem :
    (requested : List String)
    → ((gathered : List String) × (normalize_capabilities requested ≡ ok gathered)
        × (any is_blank requested ≡ false)
        × All IsClean gathered
        × IsDistinct gathered
        × ((c : String) → contains gathered c ≡ contains (map trim_text requested) c))
      ⊎ ((normalize_capabilities requested ≡ err empty_capability)
          × (any is_blank requested ≡ true))
unfolding normalize_capabilities
normalize_capabilities_lem requested = gather empty_capability [] requested tt tt

normalized-IsClean :
    (requested gathered : List String)
    → normalize_capabilities requested ≡ ok gathered
    → All IsClean gathered × IsDistinct gathered
normalized-IsClean requested gathered h = elim (normalize_capabilities_lem requested) [
  | inl (found, made, _, clean, distinct, _) ↦
      subst (λ xs. All IsClean xs × IsDistinct xs) (ground (arith, made, h)) (clean, distinct)
  | inr (failed, _) ↦ absurd (ground (arith, failed, h))
]

file_read-IsClean : IsClean "file.read"
unfolding trim_text is_whitespace nat_eq
file_read-IsClean = (refl, refl)

module _ (requested gathered : List String) (goal : String) where
  pub compile_capabilities_lem :
      normalize_capabilities requested ≡ ok gathered
      → compile_capabilities gathered goal ≡ ok (or_file_read gathered goal)
  unfolding compile_capabilities
  compile_capabilities_lem h =
      let (clean, distinct) = normalized-IsClean requested gathered h in
      elim (Bool-cases (is_empty gathered && looks_like_file_read goal)) [
        | inl reads ↦ rw reads (
            gather_clean Intent.empty_capability [] ("file.read" ∷ []) (file_read-IsClean, tt)
              (refl, tt))
        | inr kept ↦ rw kept (gather_clean Intent.empty_capability [] gathered clean distinct)
      ]

  -- What `normalize_capabilities` returns it returns again, and the intent compiler takes it as it
  -- is; where the list is empty and the goal has "read", "open", "show" or "inspect" in it, in
  -- whatever ASCII case, the compiler takes "file.read".
  pub compile-normalize_capabilities :
      normalize_capabilities requested ≡ ok gathered
      → (normalize_capabilities gathered ≡ ok gathered)
        × ((required : List String) × (compile_capabilities gathered goal ≡ ok required)
            × Requires gathered goal required)
  unfolding normalize_capabilities
  compile-normalize_capabilities h =
      let (clean, distinct) = normalized-IsClean requested gathered h in
      (
        gather_clean empty_capability [] gathered clean distinct,
        (
          or_file_read gathered goal,
          compile_capabilities_lem h,
          or_file_read-Requires gathered goal,
        ),
      )
