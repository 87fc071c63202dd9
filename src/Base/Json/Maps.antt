-- ===== src/Base/Json/Maps.antt =====
-- Maps sorted by their keys: lookup after insertion, and equality by lookups.
use llmtrace.Base.{
  ◌≡◌, refl, sym, ◌∙◌, inl, inr, true, false, [], ◌∷◌, Option, none, some, arith, if◌then◌else◌,
  eq_bytes, eq_bytes→eq, eq_bytes_refl, eq_bytes_sym, Bool-cases, Option-cases, clash,
}
use llmtrace.Base.Text.{Str}
use llmtrace.Base.Json.{Value, Map, end, field, lt_text, get, insert, extend}

lt_text_irrefl : (s : Str) → lt_text s s ≡ false
unfolding lt_text
lt_text_irrefl [] = refl
lt_text_irrefl (a ∷ s) = ground (arith, lt_text_irrefl s)

eq_bytes_other : (n q k : Str) → eq_bytes n q ≡ true → eq_bytes n k ≡ false → eq_bytes k q ≡ false
eq_bytes_other n q k e d = let same = eq_bytes→eq n q e in eq_bytes_sym k q ∙ rw (← same) d

lt_text_other : (s t : Str) → lt_text s t ≡ true → eq_bytes t s ≡ false
lt_text_other s t h = elim (Bool-cases (eq_bytes t s)) [
  | inl y ↦
      let same = eq_bytes→eq t s y in
      let self : lt_text s s ≡ true = rw same at h in absurd (clash self (lt_text_irrefl s))
  | inr n ↦ n
]

lt_text_trans : (s t u : Str) → lt_text s t ≡ true → lt_text t u ≡ true → lt_text s u ≡ true
unfolding lt_text
lt_text_trans s [] u p q = cc
lt_text_trans s (b ∷ t) [] p q = cc
lt_text_trans [] (b ∷ t) (c ∷ u) p q = refl
lt_text_trans (a ∷ s) (b ∷ t) (c ∷ u) p q = ground (arith, lt_text_trans s t u)

lt_text_total : (s t : Str) → eq_bytes s t ≡ false → lt_text s t ≡ false → lt_text t s ≡ true
unfolding lt_text eq_bytes
lt_text_total [] [] d n = cc
lt_text_total [] (b ∷ t) d n = cc
lt_text_total (a ∷ s) [] d n = refl
lt_text_total (a ∷ s) (b ∷ t) d n = ground (arith, lt_text_total s t)

-- The key comes before all keys of the map.
abbrev pub Before : Str → Map → Type 0
Before k end = Unit
Before k (field name value m) = (lt_text k name ≡ true) × Before k m

abbrev pub IsSorted : Map → Type 0
IsSorted end = Unit
IsSorted (field name value m) = Before name m × IsSorted m

pub get-insert :
    (q k : Str) (v : Value) (m : Map)
    → get q (insert k v m) ≡ (if eq_bytes k q then some v else get q m)
unfolding get insert
get-insert q k v end = refl
get-insert q k v (field name value m) = elim (Bool-cases (eq_bytes name k)) [
  | inl y ↦ let same = eq_bytes→eq name k y in ground (arith, same)
  | inr n ↦ elim (Bool-cases (lt_text k name)) [
    | inl l ↦ rw (n, l) refl
    | inr g ↦ elim (Bool-cases (eq_bytes name q)) [
      | inl e ↦
          let other : eq_bytes k q ≡ false = eq_bytes_other name q k e n in
          rw (n, g) (rw (e, other) refl)
      | inr d ↦ rw (n, g) (rw d (get-insert q k v m))
    ]
  ]
]

Before-insert :
    (b k : Str) (v : Value) (m : Map) → lt_text b k ≡ true → Before b m → Before b (insert k v m)
unfolding insert
Before-insert b k v end h p = (h, tt)
Before-insert b k v (field name value m) h p = elim (Bool-cases (eq_bytes name k)) [
  | inl y ↦ rw y (h, p.1)
  | inr n ↦ elim (Bool-cases (lt_text k name)) [
    | inl l ↦ rw (n, l) (h, p)
    | inr g ↦ rw (n, g) (p.0, Before-insert b k v m h p.1)
  ]
]

Before-trans : (k b : Str) (m : Map) → lt_text k b ≡ true → Before b m → Before k m
Before-trans k b end h p = tt
Before-trans k b (field name value m) h p = (lt_text_trans k b name h p.0, Before-trans k b m h p.1)

pub insert-IsSorted : (k : Str) (v : Value) (m : Map) → IsSorted m → IsSorted (insert k v m)
unfolding insert
insert-IsSorted k v end s = (tt, tt)
insert-IsSorted k v (field name value m) s = elim (Bool-cases (eq_bytes name k)) [
  | inl y ↦ let same = eq_bytes→eq name k y in rw y (rw (← same) s.0, s.1)
  | inr n ↦ elim (Bool-cases (lt_text k name)) [
    | inl l ↦ rw (n, l) ((l, Before-trans k name m l s.0), s)
    | inr g ↦
        rw (n, g)
          (
            Before-insert name k v m (lt_text_total k name (eq_bytes_sym k name ∙ n) g) s.0,
            insert-IsSorted k v m s.1,
          )
  ]
]

pub extend-IsSorted : (m fields : Map) → IsSorted m → IsSorted (extend m fields)
unfolding extend
extend-IsSorted m end s = s
extend-IsSorted m (field name value fields) s =
    extend-IsSorted (insert name value m) fields (insert-IsSorted name value m s)

get-Before : (k : Str) (m : Map) → Before k m → get k m ≡ none
unfolding get
get-Before k end p = refl
get-Before k (field name value m) p = rw (lt_text_other k name p.0) (get-Before k m p.1)

get_first : (a : Str) (v : Value) (m : Map) → get a (field a v m) ≡ some v
unfolding get
get_first a v m = rw (eq_bytes_refl a) refl

some-none {ℓ} : {A : Type ℓ} {o : Option A} {a : A} → o ≡ some a → o ≡ none → ⊥
some-none p q = cc

-- A first key before the other map's first key is not in that map.
first_smaller :
    (a : Str) (v : Value) (m : Map) (b : Str) (w : Value) (n : Map)
    → lt_text a b ≡ true
    → Before b n
    → get a (field a v m) ≡ get a (field b w n)
    → ⊥
first_smaller a v m b w n l p h =
    some-none (sym h ∙ get_first a v m) (get-Before a (field b w n) (l, Before-trans a b n l p))

rest_same :
    (a : Str) (v w : Value) (m n : Map)
    → Before a m
    → Before a n
    → ((k : Str) → get k (field a v m) ≡ get k (field a w n))
    → (k : Str) → get k m ≡ get k n
unfolding get
rest_same a v w m n p q h k = elim (Bool-cases (eq_bytes a k)) [
  | inl y ↦ let same = eq_bytes→eq a k y in rw (← same) (get-Before a m p ∙ sym (get-Before a n q))
  | inr d ↦ rw (d) at (h k)
]

some_inj {ℓ} : {A : Type ℓ} {a b : A} → some a ≡ some b → a ≡ b
some_inj p = cc

-- Two sorted maps with the same lookups are the same.
pub IsSorted-ext : (m n : Map) → IsSorted m → IsSorted n → ((k : Str) → get k m ≡ get k n) → m ≡ n
unfolding get
IsSorted-ext end end s t h = refl
IsSorted-ext end (field name value n) s t h =
    absurd (some-none (get_first name value n) (sym (h name)))
IsSorted-ext (field name value m) end s t h = absurd (some-none (get_first name value m) (h name))
IsSorted-ext (field a v m) (field b w n) s t h = elim (Bool-cases (eq_bytes a b)) [
  | inl y ↦
      let same = eq_bytes→eq a b y in
      let here : (k : Str) → get k (field a v m) ≡ get k (field a w n) = rw (← same) at h in
      let before : Before a n = rw same t.0 in
      let value = some_inj (sym (get_first a v m) ∙ here a ∙ get_first a w n) in
      let rest = IsSorted-ext m n s.1 t.1 (rest_same a v w m n s.0 before here) in
      rw (← same, value, rest) refl
  | inr d ↦ elim (Bool-cases (lt_text a b)) [
    | inl l ↦ absurd (first_smaller a v m b w n l t.0 (h a))
    | inr g ↦ absurd (first_smaller b w n a v m (lt_text_total a b d g) s.0 (sym (h b)))
  ]
]

-- The extension has what either map has, and the added fields win.
pub get-extend_other :
    (q : Str) (m fields : Map) → get q fields ≡ none → get q (extend m fields) ≡ get q m
unfolding get extend
get-extend_other q m end h = refl
get-extend_other q m (field name value fields) h =
    let here = get-insert q name value m in
    ground (arith, get-extend_other q (insert name value m) fields, here)

pub get-extend :
    (q : Str) (v : Value) (m fields : Map)
    → IsSorted fields
    → get q fields ≡ some v
    → get q (extend m fields) ≡ some v
unfolding get extend
get-extend q v m end s h = cc
get-extend q v m (field name value fields) s h = elim (Bool-cases (eq_bytes name q)) [
  | inl y ↦
      let same = eq_bytes→eq name q y in
      let last =
        get-extend_other q (insert name value m) fields
          (rw (← same) (get-Before name fields s.0)) in
      last ∙ get-insert q name value m ∙ rw y (rw y at h)
  | inr d ↦ get-extend q v (insert name value m) fields s.1 (rw d at h)
]

-- Every field of the one map is in the other.
abbrev pub Within : Map → Map → Type 0
Within m n = (k : Str) (v : Value) → get k m ≡ some v → get k n ≡ some v

-- A map extended by one that has all its fields is that one.
pub extend-Within : (m n : Map) → IsSorted m → IsSorted n → Within m n → extend m n ≡ n
extend-Within m n s t h = IsSorted-ext (extend m n) n (extend-IsSorted m n s) t (λ k.
    elim (Option-cases (get k n)) [
      | inl absent ↦ get-extend_other k m n absent ∙ (elim (Option-cases (get k m)) [
        | inl none_too ↦ none_too ∙ sym absent
        | inr (v, e) ↦ absurd (some-none (h k v e) absent)
      ])
      | inr (v, e) ↦ get-extend k v m n t e ∙ sym e
    ])

pub Within-insert :
    (k : Str) (v : Value) (m n : Map) → Within m n → get k m ≡ none → Within m (insert k v n)
Within-insert k v m n h absent q w e =
    let known = h q w e in
    elim (Bool-cases (eq_bytes k q)) [
      | inl y ↦ let same = eq_bytes→eq k q y in absurd (some-none e (rw same at absent))
      | inr d ↦ get-insert q k v n ∙ rw d known
    ]
