-- ===== src/Base/Json.antt =====
-- serde_json's `Value`, and its `Map`, a BTreeMap: the members of an object in the order of their
-- keys, each key once. A number is an integer, or the bits of an f64.
pub mod Maps
use llmtrace.Base.{
  ℕ, suc, Bool, true, false, List, [], ◌∷◌, ◌++◌, Option, none, some, ltb, ◌==◌, if◌then◌else◌,
  ◌||◌, ◌&&◌, eq_bytes, ◌^◌,
}
use llmtrace.Base.Text.{Str}
use llmtrace.Base.Int.{ℤ, pos, negsuc}

mutual
  pub data Value : Type 0 where
    null : Value
    boolean : Bool → Value
    integer : ℤ → Value
    float : ℕ → Value
    string : Str → Value
    array : Items → Value
    object : Map → Value

  pub data Items : Type 0 where
    nil : Items
    cons : Value → Items → Items

  pub data Map : Type 0 where
    end : Map
    field : Str → Value → Map → Map

-- The order of `String`: bytewise in UTF-8, which is the order of the scalar values.
unfoldable pub lt_text : Str → Str → Bool
lt_text s [] = false
lt_text [] (b ∷ t) = true
lt_text (a ∷ s) (b ∷ t) = ltb a b || (a == b && lt_text s t)

-- `Map::get` and `Map::insert`.
unfoldable pub get : Str → Map → Option Value
get k end = none
get k (field name value m) = if eq_bytes name k then some value else get k m

unfoldable pub insert : Str → Value → Map → Map
insert k v end = field k v end
insert k v (field name value m) =
    let rest = insert k v m in
    if eq_bytes name k
    then field k v m
    else if lt_text k name
    then field k v (field name value m)
    else field name value rest

-- `for (name, value) in fields { map.insert(name, value) }`, and `Map::extend`.
unfoldable pub extend : Map → Map → Map
extend m end = m
extend m (field name value fields) = extend (insert name value m) fields

-- `Value::get`, `as_str`, `as_i64`, `as_array` and `as_object`.
abbrev pub member : Str → Value → Option Value
member k (object m) = get k m
member k null = none
member k (boolean b) = none
member k (integer z) = none
member k (float bits) = none
member k (string s) = none
member k (array xs) = none

abbrev pub as_str : Value → Option Str
as_str (string s) = some s
as_str null = none
as_str (boolean b) = none
as_str (integer z) = none
as_str (float bits) = none
as_str (array xs) = none
as_str (object m) = none

-- An integer of the document is within the i64 range or, unsigned, above it.
abbrev pub as_i64 : Value → Option ℤ
as_i64 (integer (pos n)) = if ltb n (2 ^ 63) then some (pos n) else none
as_i64 (integer (negsuc n)) = some (negsuc n)
as_i64 null = none
as_i64 (boolean b) = none
as_i64 (float bits) = none
as_i64 (string s) = none
as_i64 (array xs) = none
as_i64 (object m) = none

abbrev pub as_array : Value → Option Items
as_array (array xs) = some xs
as_array null = none
as_array (boolean b) = none
as_array (integer z) = none
as_array (float bits) = none
as_array (string s) = none
as_array (object m) = none

abbrev pub as_object : Value → Option Map
as_object (object m) = some m
as_object null = none
as_object (boolean b) = none
as_object (integer z) = none
as_object (float bits) = none
as_object (string s) = none
as_object (array xs) = none

-- `json!` of a string, of an optional string and of a list of strings.
abbrev pub optional : Option Str → Value
optional none = null
optional (some s) = string s

unfoldable pub strings : List Str → Items
strings [] = nil
strings (s ∷ xs) = cons (string s) (strings xs)

-- `items.iter().filter_map(Value::as_str)`.
unfoldable pub texts : Items → List Str
texts nil = []
texts (cons v xs) = let rest = texts xs in elim (as_str v) [ none ↦ rest | some s ↦ s ∷ rest ]
