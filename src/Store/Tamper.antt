-- ===== src/Store/Tamper.antt =====
-- What the latest hash says of a ledger that validates: all of it, unless two hashes collide.
use essence_agent.Base.{String, ◌≡◌, ◌≢◌, refl, sym, ap, ◌∙◌, List, [], ◌∷◌, All}
use mathlib.Core.List.{reverse, reverse_aux, reverse-reverse}
use essence_agent.Base.Outcome.Pure.{ok}
use essence_agent.Contracts.{LedgerEvent}
use essence_agent.Platform.{Platform, hash_event}
use essence_agent.Store.{Store, LedgerRow, latest_event_hash, row_of, validate_ledger_hash_chain}
use essence_agent.Store.Chain.{
  unsealed, IsLinked, IsChained, validate_iff, end_hash, end_hash-eq-latest,
}

-- On the events of a class, hashes differ where the hashed events do, and none is empty.
pub record CollisionFree (p : Platform) (P : LedgerEvent → Type 0) : Type 0 where
  pub injective :
      (a b : LedgerEvent)
      → P a
      → P b
      → hash_event p (unsealed a) ≡ hash_event p (unsealed b)
      → unsealed a ≡ unsealed b
  pub nonempty : (a : LedgerEvent) → P a → hash_event p (unsealed a) ≢ ""

-- Every event of the ledger is of the class.
abbrev pub OfClass : (LedgerEvent → Type 0) → List LedgerRow → Type 0
OfClass P = All (λ row. P row.payload)

-- The ledger from its newest row on.
abbrev newest_hash : List LedgerRow → String
newest_hash [] = ""
newest_hash (row ∷ older) = row.payload.event_hash

abbrev Backwards : Platform → List LedgerRow → Type 0
Backwards p [] = Unit
Backwards p (row ∷ older) = IsLinked p (newest_hash older) row × Backwards p older

module _ (p : Platform) where
  backwards :
      (rows older : List LedgerRow)
      → IsChained p (newest_hash older) rows
      → Backwards p older
      → Backwards p (reverse_aux rows older)
  backwards [] older h b = b
  backwards (row ∷ rows) older h b = backwards rows (row ∷ older) h.1 (h.0, b)

  newest_hash-reverse_aux :
      (rows older : List LedgerRow)
      → newest_hash (reverse_aux rows older) ≡ end_hash (newest_hash older) rows
  newest_hash-reverse_aux [] older = refl
  newest_hash-reverse_aux (row ∷ rows) older = newest_hash-reverse_aux rows (row ∷ older)

module _ (P : LedgerEvent → Type 0) where
  OfClass-reverse_aux :
      (rows older : List LedgerRow)
      → OfClass P rows
      → OfClass P older
      → OfClass P (reverse_aux rows older)
  OfClass-reverse_aux [] older h k = k
  OfClass-reverse_aux (row ∷ rows) older h k = OfClass-reverse_aux rows (row ∷ older) h.1 (h.0, k)

event_path : (a b : LedgerEvent) → unsealed a ≡ unsealed b → a.event_hash ≡ b.event_hash → a ≡ b
event_path a b h k = λ i. record (h i) { event_hash = k i }

module _ (p : Platform) {P : LedgerEvent → Type 0} (free : CollisionFree p P) where
  row_path :
      {x y : String} (a b : LedgerRow)
      → IsLinked p x a
      → IsLinked p y b
      → P a.payload
      → P b.payload
      → a.payload.event_hash ≡ b.payload.event_hash
      → a.payload ≡ b.payload
  row_path a b la lb pa pb same =
      event_path a.payload b.payload
        (free.injective a.payload b.payload pa pb (sym la.hashed ∙ same ∙ lb.hashed)) same

  Backwards-unique :
      (xs ys : List LedgerRow)
      → Backwards p xs
      → Backwards p ys
      → OfClass P xs
      → OfClass P ys
      → newest_hash xs ≡ newest_hash ys
      → xs ≡ ys
  Backwards-unique [] [] bx by_ cx cy same = refl
  Backwards-unique [] (y ∷ ys) bx by_ cx cy same =
      absurd (free.nonempty y.payload cy.0 (sym by_.0.hashed ∙ sym same))
  Backwards-unique (x ∷ xs) [] bx by_ cx cy same =
      absurd (free.nonempty x.payload cx.0 (sym bx.0.hashed ∙ same))
  Backwards-unique (x ∷ xs) (y ∷ ys) bx by_ cx cy same =
      let payloads = row_path x y bx.0 by_.0 cx.0 cy.0 same in
      let rows = bx.0.columns ∙ ap row_of payloads ∙ sym by_.0.columns in
      let before =
        sym bx.0.follows
        ∙ ap (λ (e : LedgerEvent). e.previous_event_hash) payloads
        ∙ by_.0.follows in
      let rest = Backwards-unique xs ys bx.1 by_.1 cx.1 cy.1 before in λ i. rows i ∷ rest i

  -- Take two stores whose ledgers both validate, with events of a class on which the hash has no
  -- collision and is never empty. If the latest hashes are equal then the ledgers are, row by row:
  -- no event can be changed, dropped, added or moved without a change of the latest hash.
  pub latest_hash_determines :
      (s t : Store)
      → OfClass P s.ledger_events
      → OfClass P t.ledger_events
      → (validate_ledger_hash_chain p s).0 ≡ ok tt
      → (validate_ledger_hash_chain p t).0 ≡ ok tt
      → latest_event_hash s.ledger_events ≡ latest_event_hash t.ledger_events
      → s.ledger_events ≡ t.ledger_events
  latest_hash_determines s t cs ct vs vt same =
      let xs = s.ledger_events in
      let ys = t.ledger_events in
      let hs = (validate_iff p s).0.0 vs in
      let ht = (validate_iff p t).0.0 vt in
      let newest =
        newest_hash-reverse_aux p xs []
        ∙ end_hash-eq-latest p xs hs
        ∙ same
        ∙ sym (newest_hash-reverse_aux p ys [] ∙ end_hash-eq-latest p ys ht) in
      let reversed =
        Backwards-unique (reverse_aux xs []) (reverse_aux ys []) (backwards p xs [] hs tt)
          (backwards p ys [] ht tt) (OfClass-reverse_aux P xs [] cs tt)
          (OfClass-reverse_aux P ys [] ct tt) newest in
      sym (reverse-reverse xs) ∙ ap reverse reversed ∙ reverse-reverse ys
