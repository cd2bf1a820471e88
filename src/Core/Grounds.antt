-- ===== src/Core/Grounds.antt =====
-- What a pattern test of the policy engine finds, said of the elements of its lists.
use essence_agent.Base.{
  String, ◌≡◌, ◌↔◌, ◌⊎◌, Bool, true, false, List, [], ◌∷◌, ◌++◌, arith, any, find, is_empty,
  contains, ==_iff, string_eq,
}
use essence_agent.Core.Policy.{reason_if, reason_of}

module _ {ℓ} {A : Type ℓ} (P : A → Type 0) where
  abbrev pub Any : List A → Type 0
  Any [] = ⊥
  Any (x ∷ xs) = P x ⊎ Any xs

module _ {ℓ} {A : Type ℓ} where
  pub any_iff : (p : A → Bool) (xs : List A) → (any p xs ≡ true) ↔ Any (λ x. p x ≡ true) xs
  any_iff p [] = ground arith
  any_iff p (x ∷ xs) = ground (arith, any_iff p xs)

  pub Any-iff : {P Q : A → Type 0} → ((x : A) → P x ↔ Q x) → (xs : List A) → Any P xs ↔ Any Q xs
  Any-iff same [] = (λ h. h, λ h. h)
  Any-iff same (x ∷ xs) = ground (arith, same x, Any-iff same xs)

-- A list of reasons holds one exactly when the predicate does.
abbrev pub Tells : List String → Type 0 → Type 0
Tells reasons P = (is_empty reasons ≡ false) ↔ P

pub Tells-append :
    {P Q : Type 0} (xs ys : List String) → Tells xs P → Tells ys Q → Tells (xs ++ ys) (P ⊎ Q)
Tells-append [] ys h k = ground (arith, h, k)
Tells-append (x ∷ xs) ys h k = ground (arith, h, k)

pub Tells-if :
    {P : Type 0} (test : Bool) (reason : String)
    → (test ≡ true) ↔ P
    → Tells (reason_if test reason) P
Tells-if true reason h = ground (arith, h)
Tells-if false reason h = ground (arith, h)

module _ {P : String → Type 0} (p : String → Bool) (same : (x : String) → (p x ≡ true) ↔ P x)
    (f : String → String) where
  pub Tells-find : (xs : List String) → Tells (reason_of f (find p xs)) (Any P xs)
  Tells-find [] = ground arith
  Tells-find (x ∷ xs) = ground (arith, same x, Tells-find xs)

pub contains_iff : (xs : List String) (x : String) → (contains xs x ≡ true) ↔ Any (λ y. y ≡ x) xs
contains_iff [] x = ground arith
contains_iff (y ∷ xs) x = ground (arith, contains_iff xs x, ==_iff y x)
