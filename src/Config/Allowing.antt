-- ===== src/Config/Allowing.antt =====
-- crates/llmtrace/src/config.rs: an entry of the upstream allowlist that is a URL lets that URL through.
use llmtrace.Base.{
  ℕ, ◌≡◌, refl, sym, ap, subst, append-nil, ◌∙◌, inl, inr, Bool, true, false, not, ◌&&◌, ◌||◌, List,
  [], ◌∷◌, ◌++◌, Option, none, some, arith, ◌==◌, eq_bytes, eq_bytes_refl, ==_refl, is_some,
  Bool-cases, Option-cases,
}
use llmtrace.Base.Text.{
  Str, text, is_empty, trim, to_ascii_lower, to_ascii_lowercase, has_infix, trim_start_matches,
  trim_end_matches,
}
use llmtrace.Base.Results.{Result, ok, err, ◌>>=◌, ◌>>◌, ensure, ok_or}
use llmtrace.Base.Url.{UrlLibrary}
use llmtrace.Routing.{strip_prefix, starts_with, path_prefix_matches}
use llmtrace.Config.Upstreams.{
  UpstreamAllowEntry, url_entry, upstream_allowlist_schemes, parse_url, parse_upstream_allow_entry,
  matches, entry_of, guarded_entry, is_one_of,
}
use llmtrace.Config.Prefixes.{normalize_allowlist_path}

-- A path after its prefix goes on with a slash, or ends.
or_true : (a : Bool) {b : Bool} → b ≡ true → (a || b) ≡ true
or_true true h = refl
or_true false h = h

strip_prefix-append : (s t : List ℕ) → strip_prefix s (s ++ t) ≡ some t
unfolding strip_prefix
strip_prefix-append [] t = refl
strip_prefix-append (x ∷ s) t = ground (arith, strip_prefix-append s t)

-- What `trim_end_matches` takes off is empty or begins with the character.
trim_end-suffix :
    (c : ℕ) (s : Str)
    → (rest : Str) × ((s ≡ trim_end_matches c s ++ rest)
        × ((is_empty rest || starts_with c (some rest)) ≡ true))
unfolding trim_end_matches starts_with
trim_end-suffix c [] = ([], (refl, refl))
trim_end-suffix c (x ∷ s) = elim (Bool-cases (x == c && is_empty (trim_end_matches c s))) [
  | inl y ↦ rw y (x ∷ s, (refl, ground arith))
  | inr n ↦ let (rest, (e, b)) = trim_end-suffix c s in rw n (rest, (ap (◌∷◌ x) e, b))
]

-- The path of a URL: it begins with one slash.
abbrev pub IsPath : Str → Type 0
IsPath [] = ⊥
IsPath (c ∷ []) = c ≡ b'/'
IsPath (c ∷ d ∷ s) = (c ≡ b'/') × ((d == b'/') ≡ false)

matches_rest :
    (prefix rest : Str)
    → (is_empty rest || starts_with b'/' (some rest)) ≡ true
    → (eq_bytes (prefix ++ rest) prefix || starts_with b'/' (strip_prefix prefix (prefix ++ rest)))
      ≡ true
unfolding starts_with
matches_rest prefix [] h = rw (append-nil prefix, eq_bytes_refl prefix) refl
matches_rest prefix (c ∷ rest) h =
    let stripped = strip_prefix-append prefix (c ∷ rest) in
    rw stripped (or_true (eq_bytes (prefix ++ c ∷ rest) prefix) h)

path_prefix_matches-append :
    (prefix rest : Str)
    → (is_empty rest || starts_with b'/' (some rest)) ≡ true
    → path_prefix_matches prefix (prefix ++ rest) ≡ true
unfolding path_prefix_matches
path_prefix_matches-append prefix rest h = elim (Bool-cases (eq_bytes prefix (b'/' ∷ []))) [
  | inl y ↦ rw y refl
  | inr n ↦ rw n (matches_rest prefix rest h)
]

path_prefix_matches-trim_end :
    (s : Str) → path_prefix_matches (b'/' ∷ trim_end_matches b'/' s) (b'/' ∷ s) ≡ true
path_prefix_matches-trim_end s =
    let (rest, (e, b)) = trim_end-suffix b'/' s in
    subst (λ t. path_prefix_matches (b'/' ∷ trim_end_matches b'/' s) (b'/' ∷ t) ≡ true) (sym e)
      (path_prefix_matches-append (b'/' ∷ trim_end_matches b'/' s) rest b)

path_prefix_matches-normalize_allowlist_path :
    (path : Str) → IsPath path → path_prefix_matches (normalize_allowlist_path path) path ≡ true
unfolding normalize_allowlist_path trim_start_matches eq_bytes path_prefix_matches
path_prefix_matches-normalize_allowlist_path [] p = absurd p
path_prefix_matches-normalize_allowlist_path (c ∷ []) p = rw p refl
path_prefix_matches-normalize_allowlist_path (c ∷ d ∷ s) p =
    rw p.0 (rw p.1 (path_prefix_matches-trim_end (d ∷ s)))

to_ascii_lower_twice : (c : ℕ) → to_ascii_lower (to_ascii_lower c) ≡ to_ascii_lower c
to_ascii_lower_twice c = ground arith

to_ascii_lowercase_twice :
    (s : Str) → to_ascii_lowercase (to_ascii_lowercase s) ≡ to_ascii_lowercase s
unfolding to_ascii_lowercase
to_ascii_lowercase_twice [] = refl
to_ascii_lowercase_twice (c ∷ s) = rw (to_ascii_lower_twice c, to_ascii_lowercase_twice s) refl

some_inj : {A : Type 0} {a b : A} → some a ≡ some b → a ≡ b
some_inj p = cc

ok_inj : {A : Type 0} {a b : A} → ◌≡◌ {A = Result Str A} (ok a) (ok b) → a ≡ b
ok_inj p = cc

err_ok : {A : Type 0} {e : Str} {a : A} → ◌≡◌ {A = Result Str A} (err e) (ok a) → ⊥
err_ok p = cc

ensure-ok :
    {A : Type 0} (test : Bool) (error : Str) (k : Result Str A) (a : A)
    → (ensure test error >> k) ≡ ok a
    → (test ≡ true) × (k ≡ ok a)
ensure-ok true error k a h = (refl, h)
ensure-ok false error k a h = cc

ok_or-ok :
    {A B : Type 0} (o : Option A) (error : Str) (k : A → Result Str B) (b : B)
    → (ok_or o error >>= k) ≡ ok b
    → (a : A) × ((o ≡ some a) × (k a ≡ ok b))
ok_or-ok none error k b h = cc
ok_or-ok (some a) error k b h = (a, (refl, h))

bind-ok :
    {A B : Type 0} (r : Result Str A) (k : A → Result Str B) (b : B)
    → (r >>= k) ≡ ok b
    → (a : A) × ((r ≡ ok a) × (k a ≡ ok b))
bind-ok (ok a) k b h = (a, (refl, h))
bind-ok (err e) k b h = cc

module _ {Url : Type 0} (library : UrlLibrary Url) (parse_error : Str → Str) where
  -- `parse_url` gives the URL of the text, under an allowed scheme.
  parse_url-ok :
      (field value : Str) (schemes : List Str) (url : Url)
      → parse_url library parse_error field value schemes ≡ ok url
      → (library.parse (trim value) ≡ some url) × (is_one_of (library.scheme url) schemes ≡ true)
  unfolding parse_url
  parse_url-ok field value schemes url h =
      let (found, r1) = ensure-ok _ _ _ url h in
      let (u, (parsed, r2)) = ok_or-ok _ _ _ url r1 in
      let (host, r3) = ensure-ok _ _ _ url r2 in
      let (scheme, r4) = ensure-ok _ _ _ url r3 in
      let same : u ≡ url = ok_inj r4 in (rw (← same) parsed, rw (← same) scheme)

  entry_of-matches :
      (field : Str) (url : Url) (entry : UpstreamAllowEntry)
      → entry_of library parse_error field url ≡ ok entry
      → IsPath (library.path url)
      → matches library parse_error entry url ≡ true
  unfolding entry_of matches
  entry_of-matches field url entry h p =
      let path = path_prefix_matches-normalize_allowlist_path (library.path url) p in
      elim (Option-cases (library.host_str url)) [
        | inl no_host ↦ absurd (err_ok (rw no_host at h))
        | inr (host, has_host) ↦ elim (Option-cases (library.port_or_known_default url)) [
          | inl no_port ↦ absurd (err_ok (rw (has_host, no_port) at h))
          | inr (port, has_port) ↦
              let built = rw (has_host, has_port) at h in
              let same : url_entry (library.scheme url) (to_ascii_lowercase host) port
                    (normalize_allowlist_path (library.path url))
                  ≡ entry =
                ok_inj built in
              rw (← same) (
                rw
                  (
                    has_host,
                    has_port,
                    path,
                    to_ascii_lowercase_twice host,
                    eq_bytes_refl (to_ascii_lowercase host),
                    eq_bytes_refl (library.scheme url),
                    ==_refl port,
                  )
                  refl)
        ]
      ]

  guarded_entry-matches :
      (field : Str) (url : Url) (entry : UpstreamAllowEntry)
      → guarded_entry library parse_error field url ≡ ok entry
      → IsPath (library.path url)
      → matches library parse_error entry url ≡ true
  unfolding guarded_entry
  guarded_entry-matches field url entry h p =
      elim (Bool-cases (is_empty (library.username url) && not (is_some (library.password url)))) [
        | inr credentials ↦ absurd (err_ok (rw credentials at h))
        | inl y ↦
            elim (Bool-cases
              (not (is_some (library.query url)) && not (is_some (library.fragment url)))) [
                | inr query ↦ absurd (err_ok (rw (y, query) at h))
                | inl z ↦ entry_of-matches field url entry (rw (y, z) at h) p
              ]
      ]

  -- Where an entry of the upstream allowlist is a URL and is accepted, and the path of the URL begins
  -- with one slash, the entry lets that URL through, and the URL has an allowed scheme.
  pub parse_upstream_allow_entry-matches :
      (field value : Str) (entry : UpstreamAllowEntry) (url : Url)
      → parse_upstream_allow_entry library parse_error field value ≡ ok entry
      → has_infix (text "://") (trim value) ≡ true
      → library.parse (trim (trim value)) ≡ some url
      → IsPath (library.path url)
      → (matches library parse_error entry url ≡ true)
        × (is_one_of (library.scheme url) upstream_allowlist_schemes ≡ true)
  unfolding parse_upstream_allow_entry
  parse_upstream_allow_entry-matches field value entry url h absolute parse path =
      elim (Bool-cases (is_empty (trim value))) [
        | inl y ↦ absurd (err_ok (rw y at h))
        | inr n ↦
            let r1 = rw (n, absolute) at h in
            let (u, (parsed, built)) =
              bind-ok (parse_url library parse_error field (trim value) upstream_allowlist_schemes)
                (guarded_entry library parse_error field) entry r1 in
            let (found, scheme) =
              parse_url-ok field (trim value) upstream_allowlist_schemes u parsed in
            let same : u ≡ url = some_inj (sym found ∙ parse) in
            rw (← same) (guarded_entry-matches field u entry built (rw same path), scheme)
      ]
