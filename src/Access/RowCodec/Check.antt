-- ===== src/Access/RowCodec/Check.antt =====
-- What check_record accepts: exactly the records of a table's first columns.
use sqldb.Base.{
  ℕ, ◌≡◌, refl, ◌↔◌, true, List, [], ◌∷◌, map, take, length, some, Option-cases, inl, inr, Bytes,
  ok, Result-cases, All, arith,
}
use sqldb.Catalog.Value.{Value, ValueType, type_eq}
use sqldb.Catalog.Record
use sqldb.Catalog.Record.{Record}
use sqldb.Catalog.TableDef.{TableDef}
use sqldb.Catalog.Schema.{contains}
use sqldb.Access.RowCodec.{pick_values, only_cols, check_record}

type_eq_refl : (t : ValueType) → type_eq t t ≡ true
type_eq_refl t = ground arith

type_eq-eq : (s t : ValueType) → type_eq s t ≡ true → s ≡ t
type_eq-eq s t h = ground arith

-- The values that a record has for a list of columns, each of its column's type.
abbrev pub Picks : Record → List Bytes → List ValueType → List Value → Type 0
Picks rec cols types vals =
    (map (Record.get rec) cols ≡ map some vals) × (map (λ v. v.type) vals ≡ types)

-- The first loop goes through exactly where the record has those values, and returns them.
module _ (rec : Record) where
  pick_values-Picks :
      (cols : List Bytes) (types : List ValueType)
      → length cols ≡ length types
      → (vals : List Value) → pick_values rec cols types ≡ ok vals
      → Picks rec cols types vals
  unfolding pick_values
  pick_values-Picks [] [] h vals e = (ground arith, ground arith)
  pick_values-Picks [] (t ∷ types) h vals e = cc
  pick_values-Picks (c ∷ cols) [] h vals e = cc
  pick_values-Picks (c ∷ cols) (t ∷ types) h vals e = elim (Option-cases (Record.get rec c)) [
    | inl f ↦ ground arith
    | inr (v, f) ↦ elim (Result-cases (pick_values rec cols types)) [
      | inl (rest, g) ↦
          ground (arith, pick_values-Picks cols types (omega arith) rest g, type_eq-eq v.type t)
      | inr (why, g) ↦ ground arith
    ]
  ]

  pick_values_picked :
      (cols : List Bytes) (types : List ValueType) (vals : List Value)
      → Picks rec cols types vals
      → pick_values rec cols types ≡ ok vals
  unfolding pick_values
  pick_values_picked [] types [] h = refl
  pick_values_picked [] types (v ∷ vals) h = cc
  pick_values_picked (c ∷ cols) [] vals h = ground arith
  pick_values_picked (c ∷ cols) (t ∷ types) [] h = cc
  pick_values_picked (c ∷ cols) (t ∷ types) (v ∷ vals) h =
      ground (arith, pick_values_picked cols types vals, type_eq_refl t)

only_cols-contains :
    (cols names : List Bytes)
    → (only_cols cols names ≡ ok tt) ↔ All (λ c. contains cols c ≡ true) names
unfolding only_cols
only_cols-contains cols [] = (λ h. tt, λ h. refl)
only_cols-contains cols (c ∷ names) = ground (arith, only_cols-contains cols names)

-- check_record returns a list of values exactly where, of the table's first n columns, the record has
-- each (with those values, in the table's order, each of its column's type) and no other. The table
-- has as many types as columns.
pub check_record_iff :
    (d : TableDef) (rec : Record) (n : ℕ) (vals : List Value)
    → length (take n d.cols) ≡ length (take n d.types)
    → (check_record d rec n ≡ ok vals) ↔ (
        Picks rec (take n d.cols) (take n d.types) vals
        × All (λ c. contains (take n d.cols) c ≡ true) rec.cols)
unfolding check_record
check_record_iff d rec n vals h = (
  λ e. elim (Result-cases (pick_values rec (take n d.cols) (take n d.types))) [
    | inl (vs, f) ↦ ground (
      arith,
      pick_values-Picks rec (take n d.cols) (take n d.types) h vs f,
      only_cols-contains (take n d.cols) rec.cols,
    )
    | inr (why, f) ↦ ground arith
  ],
  λ (picks, known). ground (
    arith,
    pick_values_picked rec (take n d.cols) (take n d.types) vals picks,
    only_cols-contains (take n d.cols) rec.cols,
  ),
)
