-- ===== src/Trace/Effects/Cleaning.antt =====
-- crates/llmtrace/src/trace.rs: no NUL is left in a cleaned value.
use llmtrace.Base.{◌≡◌, inl, inr, false, Bool-cases, contains, eq_bytes}
use llmtrace.Base.Text.{Str}
use llmtrace.Base.Json.{
  Value, null, boolean, integer, float, string, array, object, Items, nil, cons, Map, end, field,
  lt_text, insert,
}
use llmtrace.Base.Json.Maps.{IsSorted, insert-IsSorted}
use llmtrace.Trace.Bounds.{strip_nul_bytes_owned}
use llmtrace.Trace.Bounds.Tags.{strip_nul_bytes_owned-clean}
use llmtrace.Trace.Effects.{strip_nul_bytes_from_value, strip_items, strip_map}

-- No string and no key of the value has a NUL, and its objects are maps.
abbrev mutual
  pub IsStorable : Value → Type 0
  IsStorable null = Unit
  IsStorable (boolean b) = Unit
  IsStorable (integer z) = Unit
  IsStorable (float bits) = Unit
  IsStorable (string s) = contains 0 s ≡ false
  IsStorable (array items) = AreStorable items
  IsStorable (object map) = HasStorable map × IsSorted map

  pub AreStorable : Items → Type 0
  AreStorable nil = Unit
  AreStorable (cons item items) = IsStorable item × AreStorable items

  pub HasStorable : Map → Type 0
  HasStorable end = Unit
  HasStorable (field key item map) = (contains 0 key ≡ false) × (IsStorable item × HasStorable map)

insert-HasStorable :
    (key : Str) (item : Value) (map : Map)
    → contains 0 key ≡ false
    → IsStorable item
    → HasStorable map
    → HasStorable (insert key item map)
unfolding insert
insert-HasStorable key item end k i m = (k, (i, tt))
insert-HasStorable key item (field name value map) k i m = elim (Bool-cases (eq_bytes name key)) [
  | inl y ↦ rw y (k, (i, m.1.1))
  | inr n ↦ elim (Bool-cases (lt_text key name)) [
    | inl l ↦ rw (n, l) (k, (i, m))
    | inr g ↦ rw (n, g) (m.0, (m.1.0, insert-HasStorable key item map k i m.1.1))
  ]
]

mutual
  unfolding strip_nul_bytes_from_value strip_items strip_map

  value-IsStorable : (value : Value) → IsStorable (strip_nul_bytes_from_value value)
  value-IsStorable null = tt
  value-IsStorable (boolean b) = tt
  value-IsStorable (integer z) = tt
  value-IsStorable (float bits) = tt
  value-IsStorable (string s) = strip_nul_bytes_owned-clean s
  value-IsStorable (array items) = items-AreStorable items
  value-IsStorable (object map) = map-HasStorable map end (tt, tt)

  items-AreStorable : (items : Items) → AreStorable (strip_items items)
  items-AreStorable nil = tt
  items-AreStorable (cons item items) = (value-IsStorable item, items-AreStorable items)

  map-HasStorable :
      (map cleaned : Map)
      → HasStorable cleaned × IsSorted cleaned
      → HasStorable (strip_map map cleaned) × IsSorted (strip_map map cleaned)
  map-HasStorable end cleaned c = c
  map-HasStorable (field key item map) cleaned c =
      let stripped = (strip_nul_bytes_owned key).0 in
      map-HasStorable map (insert stripped (strip_nul_bytes_from_value item) cleaned) (
        insert-HasStorable stripped (strip_nul_bytes_from_value item) cleaned
            (strip_nul_bytes_owned-clean key) (value-IsStorable item) c.0,
        insert-IsSorted stripped (strip_nul_bytes_from_value item) cleaned c.1,
      )

-- A cleaned value can be stored: no NUL is left in a string or in a key, at any depth, and the keys
-- of its objects are sorted and different.
pub strip_nul_bytes_from_value-IsStorable :
    (value : Value) → IsStorable (strip_nul_bytes_from_value value)
strip_nul_bytes_from_value-IsStorable value = value-IsStorable value
