-- ===== src/Trace/Journal/Header.antt =====
-- crates/llmtrace/src/trace/journal.rs: the 72-byte header of a journal file (magic, four
-- little-endian lengths, SHA-256 checksum).
use llmtrace.Base.{
  ℕ, ◌+◌, ◌*◌, ◌≤◌, ◌<◌, ◌≡◌, refl, Bool, false, ◌&&◌, List, [], ◌∷◌, ◌++◌, Option, none, some,
  arith, leb, ◌==◌, if◌then◌else◌, eq_bytes, eq_bytes_refl, length, take, drop, length-append,
  take_of_length, drop_of_length, append_assoc, append-nil,
}
use llmtrace.Base.Words.{
  word_mod, checked_add, saturating_mul, le_bytes, of_le_bytes, of_le_bytes-le_bytes,
}
use llmtrace.Base.Results.{Result, ok, err, ◌>>=◌, ◌>>◌, ensure, and_then}

pub data Error : Type 0 where
  io unknown_format metadata_too_large length_mismatch invalid_memory : Error
  checksum_mismatch invalid_metadata id_mismatch : Error

abbrev pub magic : List ℕ
magic = b'L' ∷ b'L' ∷ b'M' ∷ b'T' ∷ b'J' ∷ b'0' ∷ b'0' ∷ b'1' ∷ []

abbrev pub header_bytes : ℕ
header_bytes = 72

abbrev pub max_metadata_bytes : ℕ
max_metadata_bytes = 16 * 1024 * 1024

abbrev pub max_memory : ℕ
max_memory = 64 * 1024 * 1024 * 1024

-- `Header`, the tuple that `read_header` returns.
pub record Header : Type 0 where
  pub metadata : ℕ
  pub request : ℕ
  pub response : ℕ
  pub memory : ℕ
  pub checksum : List ℕ

-- `Read::read_exact`: the next `n` bytes, and what follows them.
pub read_exact : ℕ → List ℕ → Result Error (List ℕ × List ℕ)
read_exact n file = if leb n (length file) then ok (take n file, drop n file) else err io

pub read_exact-append :
    (n : ℕ) (xs ys : List ℕ) → length xs ≡ n → read_exact n (xs ++ ys) ≡ ok (xs, ys)
unfolding read_exact
read_exact-append n xs ys h =
    ground (arith, length-append xs ys, take_of_length n xs ys h, drop_of_length n xs ys h)

pub read_exact_all : (xs : List ℕ) → read_exact (length xs) xs ≡ ok (xs, [])
read_exact_all xs = rw append-nil at (read_exact-append (length xs) xs [] refl)

pub header_prefix : ℕ → ℕ → ℕ → ℕ → List ℕ
header_prefix meta request response memory =
    magic ++ (le_bytes 8 meta ++ (le_bytes 8 request ++ (le_bytes 8 response ++ le_bytes 8 memory)))

-- The closure `number`: the u64 that stands at an offset.
abbrev number_at : List ℕ → ℕ → ℕ
number_at header offset = of_le_bytes (take 8 (drop offset header))

-- `HEADER_BYTES + meta + request + response`, if it fits.
abbrev expected_size : ℕ → ℕ → ℕ → Option ℕ
expected_size meta request response =
    and_then (and_then (checked_add header_bytes meta) (λ n. checked_add n request))
      (λ n. checked_add n response)

-- The least reservation that replay may need.
abbrev minimum_memory : ℕ → ℕ → ℕ → Option ℕ
minimum_memory meta request response =
    and_then (and_then (checked_add request response) (λ n. checked_add n (saturating_mul meta 8)))
      (λ n. checked_add n 65536)

abbrev eq_some : Option ℕ → ℕ → Bool
eq_some none n = false
eq_some (some m) n = m == n

abbrev at_least : Option ℕ → ℕ → Bool
at_least none n = false
at_least (some m) n = leb m n

-- The checks of `read_header` on the numbers of the header.
pub check_numbers : ℕ → ℕ → ℕ → ℕ → ℕ → Result Error (Unit {0})
unfolding checked_add
check_numbers size meta request response memory = do
  ensure (leb meta max_metadata_bytes) metadata_too_large
  ensure (eq_some (expected_size meta request response) size) length_mismatch
  ensure (at_least (minimum_memory meta request response) memory && leb memory max_memory)
      invalid_memory

-- The fields of the 72 bytes of a header, checked.
parse_header : List ℕ → ℕ → Result Error Header
parse_header header size = do
  ensure (eq_bytes (take 8 header) magic) unknown_format
  check_numbers size (number_at header 8) (number_at header 16) (number_at header 24)
      (number_at header 32)
  ok (record {
    metadata = number_at header 8;
    request = number_at header 16;
    response = number_at header 24;
    memory = number_at header 32;
    checksum = drop 40 header;
  })

-- `read_header` on a file of the given size; the rest of the file follows the header.
pub read_header : List ℕ → ℕ → Result Error (Header × List ℕ)
read_header file size = do
  (header, rest) ← read_exact header_bytes file
  parsed ← parse_header header size
  ok (parsed, rest)

check_numbers_ok :
    (meta request response memory : ℕ)
    → meta ≤ max_metadata_bytes
    → request + response + meta * 8 + 65536 ≤ memory
    → memory ≤ max_memory
    → check_numbers (header_bytes + meta + request + response) meta request response memory ≡ ok tt
unfolding check_numbers
check_numbers_ok meta request response memory p q r = ground arith

pub length-header_prefix :
    (meta request response memory : ℕ) → length (header_prefix meta request response memory) ≡ 40
unfolding header_prefix le_bytes
length-header_prefix meta request response memory = refl

module _ (meta request response memory : ℕ) (checksum : List ℕ) where
  abbrev written : List ℕ
  written = header_prefix meta request response memory ++ checksum

  take-written : take 8 written ≡ magic
  unfolding header_prefix
  take-written = refl

  drop-written : drop 40 written ≡ checksum
  unfolding header_prefix le_bytes
  drop-written = refl

  metadata-written : meta < word_mod → number_at written 8 ≡ meta
  unfolding header_prefix le_bytes
  metadata-written h = of_le_bytes-le_bytes 8 meta h

  request-written : request < word_mod → number_at written 16 ≡ request
  unfolding header_prefix le_bytes
  request-written h = of_le_bytes-le_bytes 8 request h

  response-written : response < word_mod → number_at written 24 ≡ response
  unfolding header_prefix le_bytes
  response-written h = of_le_bytes-le_bytes 8 response h

  memory-written : memory < word_mod → number_at written 32 ≡ memory
  unfolding header_prefix le_bytes
  memory-written h = of_le_bytes-le_bytes 8 memory h

  parse_header-written :
      meta ≤ max_metadata_bytes
      → request + response + meta * 8 + 65536 ≤ memory
      → memory ≤ max_memory
      → parse_header written (header_bytes + meta + request + response)
        ≡ ok (record {
          metadata = meta;
          request = request;
          response = response;
          memory = memory;
          checksum = checksum;
        })
  unfolding parse_header
  parse_header-written p q r = rw (
    take-written,
    eq_bytes_refl magic,
    metadata-written (omega arith),
    request-written (omega arith),
    response-written (omega arith),
    memory-written (omega arith),
    check_numbers_ok meta request response memory p q r,
    drop-written,
  )

-- A header that `append` writes is read back as it was written, from a file of the size that it
-- gives. The metadata and the replay reservation are within the limits that are checked, and the
-- checksum has 32 bytes.
pub read_header-header_prefix :
    (meta request response memory : ℕ) (checksum rest : List ℕ)
    → meta ≤ max_metadata_bytes
    → request + response + meta * 8 + 65536 ≤ memory
    → memory ≤ max_memory
    → length checksum ≡ 32
    → read_header
        (header_prefix meta request response memory ++ (checksum ++ rest))
        (header_bytes + meta + request + response)
      ≡ ok (
        record {
          metadata = meta;
          request = request;
          response = response;
          memory = memory;
          checksum = checksum;
        },
        rest,
      )
unfolding read_header
read_header-header_prefix meta request response memory checksum rest p q r s =
    let head = header_prefix meta request response memory in
    let size : length (head ++ checksum) ≡ header_bytes =
      omega
        (arith, length-append head checksum, length-header_prefix meta request response memory) in
    rw (← append_assoc head checksum rest) (
      rw (
        read_exact-append header_bytes (head ++ checksum) rest size,
        parse_header-written meta request response memory checksum p q r,
      ))
