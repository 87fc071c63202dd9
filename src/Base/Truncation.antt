-- ===== src/Base/Truncation.antt =====
-- `truncate_utf8` cuts at the last character boundary within its bound.
use llmtrace.Base.{
  sym, append-nil, ℕ, zero, suc, ◌-◌, ◌≤◌, ◌<◌, ◌≡◌, refl, ap, inl, inr, true, false, [], ◌∷◌, ◌++◌,
  arith, ltb, leb, ◌==◌, contains, Bool-cases, clash,
}
use llmtrace.Base.Text.{
  Str, len_utf8, byte_len, is_char_boundary, slice_to, floor_char_boundary, truncate_utf8,
  remove_char, is_empty,
}

pub len_utf8_pos : (c : ℕ) → 0 < len_utf8 c
len_utf8_pos c = ground arith

pub len_utf8-le : (c : ℕ) → len_utf8 c ≤ 4
len_utf8-le c = ground arith

pub floor-le : (s : Str) (end : ℕ) → floor_char_boundary s end ≤ end
unfolding floor_char_boundary
floor-le s zero = omega arith
floor-le s (suc end) = ground (arith, floor-le s end)

pub zero_boundary : (s : Str) → is_char_boundary s 0 ≡ true
unfolding is_char_boundary
zero_boundary [] = refl
zero_boundary (c ∷ s) = refl

floor_boundary : (s : Str) (end : ℕ) → is_char_boundary s (floor_char_boundary s end) ≡ true
unfolding floor_char_boundary
floor_boundary s zero = zero_boundary s
floor_boundary s (suc end) = ground (arith, floor_boundary s end)

-- Every boundary within the bound is at or below the cut.
pub le-floor :
    (s : Str) (i end : ℕ) → i ≤ end → is_char_boundary s i ≡ true → i ≤ floor_char_boundary s end
unfolding floor_char_boundary
le-floor s i zero h b = h
le-floor s i (suc end) h b = elim (Bool-cases (is_char_boundary s (suc end))) [
  | inl y ↦ rw y h
  | inr n ↦ elim (Bool-cases (i == suc end)) [
    | inl e ↦
        let equal : i ≡ suc end = ground arith in
        let same : is_char_boundary s (suc end) ≡ true = rw equal at b in absurd (clash same n)
    | inr d ↦ rw n (le-floor s i end (ground arith) b)
  ]
]

first_boundary : (c : ℕ) (s : Str) → is_char_boundary (c ∷ s) (len_utf8 c) ≡ true
unfolding is_char_boundary
first_boundary c s = elim (Bool-cases (ltb (len_utf8 c) (len_utf8 c))) [
  | inl y ↦ absurd (ground arith)
  | inr n ↦
      let start : len_utf8 c - len_utf8 c ≡ 0 = omega arith in
      let pos : (len_utf8 c == 0) ≡ false = ground (arith, len_utf8_pos c) in
      rw (pos, n, start) (zero_boundary s)
]

byte_len-slice_to : (s : Str) (i : ℕ) → is_char_boundary s i ≡ true → byte_len (slice_to s i) ≡ i
unfolding byte_len slice_to is_char_boundary
byte_len-slice_to [] i h = ground arith
byte_len-slice_to (c ∷ s) i h =
    let pos = len_utf8_pos c in ground (arith, byte_len-slice_to s (i - len_utf8 c), pos)

pub byte_len-truncate-le : (s : Str) (n : ℕ) → byte_len (truncate_utf8 s n) ≤ n
unfolding truncate_utf8
byte_len-truncate-le s n = elim (Bool-cases (leb (byte_len s) n)) [
  | inl y ↦ rw y (ground arith)
  | inr m ↦
      rw (m, byte_len-slice_to s (floor_char_boundary s n) (floor_boundary s n)) (floor-le s n)
]

slice_to-prefix : (s : Str) (i : ℕ) → (rest : Str) × (s ≡ slice_to s i ++ rest)
unfolding slice_to
slice_to-prefix [] i = ([], refl)
slice_to-prefix (c ∷ s) i = elim (Bool-cases (ltb i (len_utf8 c))) [
  | inl y ↦ rw y (c ∷ s, refl)
  | inr n ↦ let (rest, e) = slice_to-prefix s (i - len_utf8 c) in rw n (rest, ap (◌∷◌ c) e)
]

-- The cut text begins the text.
pub truncate-prefix : (s : Str) (n : ℕ) → (rest : Str) × (s ≡ truncate_utf8 s n ++ rest)
unfolding truncate_utf8
truncate-prefix s n = elim (Bool-cases (leb (byte_len s) n)) [
  | inl y ↦ rw y ([], sym (append-nil s))
  | inr m ↦ rw m (slice_to-prefix s (floor_char_boundary s n))
]

contains-slice_to :
    (c : ℕ) (s : Str) (i : ℕ) → contains c s ≡ false → contains c (slice_to s i) ≡ false
unfolding contains slice_to
contains-slice_to c [] i h = refl
contains-slice_to c (x ∷ s) i h = ground (arith, contains-slice_to c s (i - len_utf8 x))

pub contains-truncate :
    (c : ℕ) (s : Str) (n : ℕ) → contains c s ≡ false → contains c (truncate_utf8 s n) ≡ false
unfolding truncate_utf8
contains-truncate c s n h = elim (Bool-cases (leb (byte_len s) n)) [
  | inl y ↦ rw y h
  | inr m ↦ rw m (contains-slice_to c s (floor_char_boundary s n) h)
]

-- A bound of four bytes leaves something of every text.
pub truncate-nonempty :
    (s : Str) (n : ℕ) → is_empty s ≡ false → 4 ≤ n → is_empty (truncate_utf8 s n) ≡ false
unfolding truncate_utf8 slice_to
truncate-nonempty [] n h four = cc
truncate-nonempty (c ∷ s) n h four = elim (Bool-cases (leb (byte_len (c ∷ s)) n)) [
  | inl y ↦ rw y refl
  | inr m ↦
      let cut : len_utf8 c ≤ floor_char_boundary (c ∷ s) n =
        le-floor (c ∷ s) (len_utf8 c) n (omega (arith, len_utf8-le c)) (first_boundary c s) in
      let kept : ltb (floor_char_boundary (c ∷ s) n) (len_utf8 c) ≡ false = ground arith in
      rw (m, kept) refl
]

pub contains-remove_char : (c : ℕ) (s : Str) → contains c (remove_char c s) ≡ false
unfolding contains remove_char
contains-remove_char c [] = refl
contains-remove_char c (x ∷ s) = ground (arith, contains-remove_char c s)
