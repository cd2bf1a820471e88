-- ===== src/Ingress/Redaction.antt =====
-- What `redact_goal` of moxi-gateway leaves of a goal, and what it records.
use essence_agent.Base.{
  String, Bool, true, false, ◌≡◌, ◌⊎◌, inl, inr, refl, sym, ap, ◌∙◌, none, some, List, [], ◌∷◌,
  ◌++◌, map, find, arith, All, Bool-cases, subst, nat_eq,
}
use essence_agent.Base.Text.{codes, is_whitespace, join, to_ascii_lowercase}
use essence_agent.Base.Occurrence.{Begins, starts_with_iff}
use essence_agent.Base.Words.{
  split_whitespace, split_whitespace-join, split_whitespace-IsWord, IsWord,
}
use essence_agent.Ingress.Gateway.{
  Redaction, redact_word, redact_words, redact_goal, redacted_secret, is_marked, redacted_as,
}

-- The word begins with the marker, whatever the case of the ASCII letters in both.
abbrev pub IsMarkedBy : String → String → Type 0
IsMarkedBy word marker =
    Begins (to_ascii_lowercase (codes marker)) (to_ascii_lowercase (codes word))

module _ {A : Type 0} (test : A → Bool) where
  -- The search finds the first element that passes, or none passes.
  find_cases :
      (xs : List A)
      → ((find test xs ≡ none) × All (λ x. test x ≡ false) xs)
        ⊎ ((a : A) × (earlier : List A) × (others : List A) × (find test xs ≡ some a)
            × (xs ≡ earlier ++ (a ∷ others))
            × All (λ x. test x ≡ false) earlier
            × (test a ≡ true))
  find_cases [] = inl (refl, tt)
  find_cases (x ∷ xs) = elim (Bool-cases (test x)) [
    | inl marked ↦ inr (x, [], xs, rw marked refl, refl, tt, marked)
    | inr clear ↦ elim (find_cases xs) [
      | inl (missing, never) ↦ inl (rw clear missing, (clear, never))
      | inr (a, earlier, others, found, same, before, here) ↦
          inr
            (a, x ∷ earlier, others, rw clear found, ap (λ ys. x ∷ ys) same, (clear, before), here)
    ]
  ]

module _ (word : String) where
  unmarked :
      (markers : List String)
      → All (λ marker. is_marked word marker ≡ false) markers
      → All (λ marker. ¬ IsMarkedBy word marker) markers
  unmarked [] all = tt
  unmarked (marker ∷ markers) (clear, all) = (
    λ h. ground (
      arith,
      clear,
      (starts_with_iff (to_ascii_lowercase (codes word)) (to_ascii_lowercase (codes marker))).1 h,
    ),
    unmarked markers all,
  )

module _ (markers : List String) where
  abbrev pub redacted : String → String
  redacted word = (redact_word markers word).0

  -- What becomes of a word: it is kept, and nothing recorded, where it begins with no marker.
  -- Otherwise the replacement stands for it, and the first marker that it begins with is recorded.
  abbrev pub BecomesWord : String → String → List Redaction → Type 0
  BecomesWord word out redactions =
      (All (λ marker. ¬ IsMarkedBy word marker) markers × (out ≡ word) × (redactions ≡ []))
      ⊎ ((marker : String) × (earlier : List String) × (others : List String) × (markers
            ≡ earlier ++ (marker ∷ others))
          × All (λ other. ¬ IsMarkedBy word other) earlier
          × IsMarkedBy word marker
          × (out ≡ "[REDACTED_SECRET]")
          × (redactions ≡ record { marker = marker; replacement = "[REDACTED_SECRET]" } ∷ []))

  -- The same for each word of a list in turn.
  abbrev pub Becomes : List String → List String → List Redaction → Type 0
  Becomes [] outs redactions = (outs ≡ []) × (redactions ≡ [])
  Becomes (word ∷ words) outs redactions =
      (out : String) × (rest : List String) × (first : List Redaction) × (later : List Redaction)
      × (outs ≡ out ∷ rest)
      × (redactions ≡ first ++ later)
      × BecomesWord word out first
      × Becomes words rest later

  redact_word-BecomesWord :
      (word : String) → BecomesWord word (redact_word markers word).0 (redact_word markers word).1
  unfolding redact_word
  redact_word-BecomesWord word = elim (find_cases (is_marked word) markers) [
    | inl (missing, never) ↦ inl (
      unmarked word markers never,
      ap (λ m. (redacted_as word m).0) missing,
      ap (λ m. (redacted_as word m).1) missing,
    )
    | inr (marker, earlier, others, found, same, before, here) ↦ inr (
      marker,
      earlier,
      others,
      same,
      unmarked word earlier before,
      (starts_with_iff (to_ascii_lowercase (codes word)) (to_ascii_lowercase (codes marker))).0
          here,
      ap (λ m. (redacted_as word m).0) found,
      ap (λ m. (redacted_as word m).1) found,
    )
  ]

  redact_words-Becomes :
      (words : List String)
      → Becomes words (redact_words markers words).0 (redact_words markers words).1
  unfolding redact_words
  redact_words-Becomes [] = (refl, refl)
  redact_words-Becomes (word ∷ words) =
      (_, _, _, _, refl, refl, redact_word-BecomesWord word, redact_words-Becomes words)

  redacted_words : (words : List String) → (redact_words markers words).0 ≡ map redacted words
  unfolding redact_words
  redacted_words [] = refl
  redacted_words (word ∷ words) = ap (λ rest. redacted word ∷ rest) (redacted_words words)

  secret-IsWord : IsWord redacted_secret
  unfolding is_whitespace nat_eq
  secret-IsWord = (refl, refl)

  redacted-IsWord : (words : List String) → All IsWord words → All IsWord (map redacted words)
  redacted-IsWord [] all = tt
  redacted-IsWord (word ∷ words) (first, all) = elim (redact_word-BecomesWord word) [
    | inl (_, same, _) ↦ (subst IsWord (sym same) first, redacted-IsWord words all)
    | inr (_, _, _, _, _, _, secret, _) ↦
        (subst IsWord (sym secret) secret-IsWord, redacted-IsWord words all)
  ]

  -- The words of the redacted goal are those that the words of the goal become.
  pub split_whitespace-redact_goal :
      (goal : String)
      → split_whitespace (redact_goal goal markers).0 ≡ map redacted (split_whitespace goal)
  unfolding redact_goal
  split_whitespace-redact_goal goal =
      let words = split_whitespace goal in
      ap (λ ws. split_whitespace (join " " ws)) (redacted_words words)
      ∙ split_whitespace-join (map redacted words)
          (redacted-IsWord words (split_whitespace-IsWord goal))

  -- Word by word, a word of the goal that begins with no marker, in whatever ASCII case, is kept in
  -- the redacted goal. Any other word is replaced by "[REDACTED_SECRET]", and the redactions are,
  -- in order, one for each such word with the first marker that it begins with.
  pub redact_goal_lem :
      (goal : String)
      → Becomes
          (split_whitespace goal)
          (split_whitespace (redact_goal goal markers).0)
          (redact_goal goal markers).1
  unfolding redact_goal
  redact_goal_lem goal =
      let words = split_whitespace goal in
      subst (λ outs. Becomes words outs (redact_words markers words).1)
        (redacted_words words ∙ sym (split_whitespace-redact_goal goal))
        (redact_words-Becomes words)
