-- ===== src/Base/Table.antt =====
-- A table keyed by text: a `HashMap`, or an SQLite table with its primary key and its rows in
-- `rowid` order.
use mathlib.Core.Path.{◌≡◌, refl}
use mathlib.Core.Option
use mathlib.Core.Option.{Option, none, some}
use mathlib.Core.List.{List, [], ◌∷◌, ◌++◌}
use Prim.Native.String.{String}
use native.Mathlib.Omega.{arith}
use essence_agent.Base.Tests.{if◌then◌else◌}
use essence_agent.Base.Equality.{◌==◌, string_eq}

abbrev pub Table : Type 0 → Type 0
Table V = List (String × V)

module _ {V : Type 0} where
  -- `SELECT ... WHERE key = k`, `HashMap::get`
  abbrev pub lookup : String → Table V → Option V
  lookup k [] = none
  lookup k ((j, v) ∷ t) = if j == k then some v else lookup k t

  -- `INSERT ... ON CONFLICT DO UPDATE`, `HashMap::insert`
  abbrev pub insert : String → V → Table V → Table V
  insert k v [] = (k, v) ∷ []
  insert k v ((j, w) ∷ t) = if j == k then (j, v) ∷ t else (j, w) ∷ insert k v t

  -- `UPDATE ... WHERE key = k`
  abbrev pub update : String → (V → V) → Table V → Table V
  update k f [] = []
  update k f ((j, w) ∷ t) = if j == k then (j, f w) ∷ t else (j, w) ∷ update k f t

  pub lookup-insert :
      (k j : String) (v : V) (t : Table V)
      → lookup j (insert k v t) ≡ (if k == j then some v else lookup j t)
  lookup-insert k j v [] = refl
  lookup-insert k j v ((i, w) ∷ t) = ground (arith, lookup-insert k j v t)

  pub lookup-update :
      (k j : String) (f : V → V) (t : Table V)
      → lookup j (update k f t) ≡ (if k == j then Option.map f (lookup j t) else lookup j t)
  lookup-update k j f [] = ground arith
  lookup-update k j f ((i, w) ∷ t) = ground (arith, lookup-update k j f t)

  -- A row behind the others is found where no earlier row has its key.
  pub lookup-append :
      (k j : String) (v : V) (t : Table V)
      → lookup k t ≡ none
      → lookup j (t ++ (k, v) ∷ []) ≡ (if k == j then some v else lookup j t)
  lookup-append k j v [] h = refl
  lookup-append k j v ((i, w) ∷ t) h = ground (arith, lookup-append k j v t)

  -- `INSERT INTO ...`: none where the primary key is taken
  abbrev pub insert_new : String → V → Table V → Option (Table V)
  insert_new k v t = elim (lookup k t) [ none ↦ some (t ++ (k, v) ∷ []) | some _ ↦ none ]
