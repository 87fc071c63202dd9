-- ===== src/Base/Text.antt =====
-- `str` as its Unicode scalar values; lengths and offsets are in bytes of its UTF-8 form.
use Prim.Native.Nat.{ℕ, zero, suc, ◌+◌, ◌-◌, ◌/◌, ◌%◌}
use mathlib.Core.Bool.{Bool, true, false, ◌&&◌, ◌||◌}
use mathlib.Core.List.{List, [], ◌∷◌, ◌++◌, reverse}
use mathlib.Core.Option.{Option, none, some}
use llmtrace.Base.Lists.{length, drop}
use llmtrace.Base.Tests.{ltb, leb, ◌==◌, if◌then◌else◌}
use Prim.Native.Char.{code}
use Prim.Native.String.{String}

abbrev pub Str : Type 0
Str = List ℕ

abbrev pub is_empty {ℓ} : {A : Type ℓ} → List A → Bool
is_empty [] = true
is_empty (x ∷ xs) = false

-- `char::len_utf8`.
abbrev pub len_utf8 : ℕ → ℕ
len_utf8 c = if ltb c 0x80 then 1 else if ltb c 0x800 then 2 else if ltb c 0x10000 then 3 else 4

-- `str::len`.
unfoldable pub byte_len : Str → ℕ
byte_len [] = 0
byte_len (c ∷ s) = len_utf8 c + byte_len s

-- `str::is_char_boundary`.
unfoldable pub is_char_boundary : Str → ℕ → Bool
is_char_boundary [] i = i == 0
is_char_boundary (c ∷ s) i =
    if i == 0
    then true
    else if ltb i (len_utf8 c)
    then false
    else is_char_boundary s (i - len_utf8 c)

-- `&value[..end]`, for an `end` that is a boundary.
unfoldable pub slice_to : Str → ℕ → Str
slice_to [] i = []
slice_to (c ∷ s) i = if ltb i (len_utf8 c) then [] else c ∷ slice_to s (i - len_utf8 c)

-- `char::is_whitespace`: the White_Space property.
abbrev pub is_whitespace : ℕ → Bool
is_whitespace c =
    (leb 9 c && leb c 13)
    || c == 0x20
    || c == 0x85
    || c == 0xa0
    || c == 0x1680
    || (leb 0x2000 c && leb c 0x200a)
    || c == 0x2028
    || c == 0x2029
    || c == 0x202f
    || c == 0x205f
    || c == 0x3000

unfoldable pub trim_start : Str → Str
trim_start [] = []
trim_start (c ∷ s) = if is_whitespace c then trim_start s else c ∷ s

unfoldable pub trim : Str → Str
unfolding trim_start
trim s = reverse (trim_start (reverse (trim_start s)))

abbrev pub to_ascii_lower : ℕ → ℕ
to_ascii_lower c = if leb b'A' c && leb c b'Z' then c + 32 else c

unfoldable pub to_ascii_lowercase : Str → Str
to_ascii_lowercase [] = []
to_ascii_lowercase (c ∷ s) = to_ascii_lower c ∷ to_ascii_lowercase s

-- The loop `while !value.is_char_boundary(end) { end -= 1; }`; 0 is a boundary.
unfoldable pub floor_char_boundary : Str → ℕ → ℕ
floor_char_boundary s zero = zero
floor_char_boundary s (suc end) =
    if is_char_boundary s (suc end) then suc end else floor_char_boundary s end

-- `truncate_utf8`, of crates/llmtrace/src/login_throttle.rs and crates/llmtrace/src/auth.rs.
unfoldable pub truncate_utf8 : Str → ℕ → Str
unfolding slice_to floor_char_boundary
truncate_utf8 value max_bytes =
    if leb (byte_len value) max_bytes
    then value
    else slice_to value (floor_char_boundary value max_bytes)

-- A literal of the source.
abbrev pub text : String → Str
text String.[] = []
text (String.◌∷◌ c s) = code c ∷ text s

-- `str::replace(c, "")`.
unfoldable pub remove_char : ℕ → Str → Str
remove_char c [] = []
remove_char c (x ∷ s) = let rest = remove_char c s in if c == x then rest else x ∷ rest

-- `str::as_bytes`: UTF-8.
abbrev pub utf8_char : ℕ → List ℕ
utf8_char c =
    if ltb c 0x80
    then c ∷ []
    else if ltb c 0x800
    then (0xc0 + c / 64) ∷ (0x80 + c % 64) ∷ []
    else if ltb c 0x10000
    then (0xe0 + c / 4096) ∷ (0x80 + c / 64 % 64) ∷ (0x80 + c % 64) ∷ []
    else (0xf0 + c / 262144) ∷ (0x80 + c / 4096 % 64) ∷ (0x80 + c / 64 % 64) ∷ (0x80 + c % 64) ∷ []

unfoldable pub utf8 : Str → List ℕ
utf8 [] = []
utf8 (c ∷ s) = utf8_char c ++ utf8 s

-- `str::starts_with`.
unfoldable pub has_prefix : Str → Str → Bool
has_prefix [] s = true
has_prefix (a ∷ p) [] = false
has_prefix (a ∷ p) (c ∷ s) = a == c && has_prefix p s

-- `value.split_once(separator)`.
unfoldable pub split_once : Str → Str → Option (Str × Str)
split_once separator [] = none
split_once separator (c ∷ s) =
    let rest = split_once separator s in
    if has_prefix separator (c ∷ s)
    then some ([], drop (length separator) (c ∷ s))
    else elim rest [ none ↦ none | some (before, after) ↦ some (c ∷ before, after) ]

-- `value.split(separator)`, for a character.
abbrev pub cons_first : ℕ → List Str → List Str
cons_first c [] = (c ∷ []) ∷ []
cons_first c (piece ∷ pieces) = (c ∷ piece) ∷ pieces

unfoldable pub split : ℕ → Str → List Str
split separator [] = [] ∷ []
split separator (c ∷ s) =
    let rest = split separator s in if c == separator then [] ∷ rest else cons_first c rest

-- `pieces.join(separator)`, for a character.
unfoldable pub join : ℕ → List Str → Str
join separator [] = []
join separator (piece ∷ []) = piece
join separator (piece ∷ next ∷ pieces) = piece ++ separator ∷ join separator (next ∷ pieces)

-- `pieces.join(separator)`, for a text.
unfoldable pub join_with : Str → List Str → Str
join_with separator [] = []
join_with separator (piece ∷ []) = piece
join_with separator (piece ∷ next ∷ pieces) =
    piece ++ separator ++ join_with separator (next ∷ pieces)

-- `value.rsplit_once(separator)`, for a character.
unfoldable pub rsplit_once : ℕ → Str → Option (Str × Str)
rsplit_once separator [] = none
rsplit_once separator (c ∷ s) =
    let rest = rsplit_once separator s in
    elim rest [
      | some (before, after) ↦ some (c ∷ before, after)
      | none ↦ if c == separator then some ([], s) else none
    ]

-- `trim_start_matches(c)`, `trim_end_matches(c)` and `trim_matches(c)`.
unfoldable pub trim_start_matches : ℕ → Str → Str
trim_start_matches c [] = []
trim_start_matches c (x ∷ s) = let rest = trim_start_matches c s in if x == c then rest else x ∷ s

unfoldable pub trim_end_matches : ℕ → Str → Str
trim_end_matches c [] = []
trim_end_matches c (x ∷ s) =
    let rest = trim_end_matches c s in if x == c && is_empty rest then [] else x ∷ rest

abbrev pub trim_matches : ℕ → Str → Str
trim_matches c s = trim_end_matches c (trim_start_matches c s)

-- `value.contains(pattern)`.
unfoldable pub has_infix : Str → Str → Bool
has_infix pattern [] = has_prefix pattern []
has_infix pattern (c ∷ s) = has_prefix pattern (c ∷ s) || has_infix pattern s

-- `format!("{n}")`: the decimal digits; the fuel n + 1 exceeds their number.
unfoldable pub digits : ℕ → ℕ → Str → Str
digits zero n acc = acc
digits (suc fuel) n acc =
    let rest = digits fuel (n / 10) ((b'0' + n % 10) ∷ acc) in
    if ltb n 10 then (b'0' + n) ∷ acc else rest

unfoldable pub decimal : ℕ → Str
decimal n = digits (suc n) n []
