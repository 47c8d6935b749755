-- ===== src/Gdb/Reader.antt =====
-- `GDBRequestBase` (include/GDBServer/GDBRequest/GDBRequestBase.hpp): a cursor over the contents of
-- a packet. The state is the text that is left.
use mathlib.Core.Path.{subst}
use xendbg.Prelude.{
  ℕ, zero, suc, ◌+◌, ◌-◌, ◌*◌, ◌%◌, ◌^◌, Bool, true, false, ◌&&◌, Option, none, some, leb, ◌==◌,
  inl, inr, Bool-cases, if◌then◌else◌, [], ◌∷◌, ◌≡◌, ◌≤◌, Bytes, length, take, drop, Result, ok,
  err, arith,
}
use xendbg.Text.{between, stoul, StoulError}
use xendbg.Gdb.Packet.{starts_with}

-- RequestPacketParseException, and the exceptions of the standard library.
pub data RequestError : Type 0 where
  parse_error : RequestError
  number_error : StoulError → RequestError
  length_error : RequestError

abbrev pub Reader : Type 0 → Type 0
Reader A = Bytes → Result RequestError (A × Bytes)

infixl 5 ◌>>=◌ ◌>>◌
abbrev pub ◌>>=◌ : {A B : Type 0} → Reader A → (A → Reader B) → Reader B
◌>>=◌ m f s = elim (m s) [ ok (a, s') ↦ f a s' | err e ↦ err e ]

abbrev pub ◌>>◌ : {A B : Type 0} → Reader A → Reader B → Reader B
m >> k = m >>= λ _. k

abbrev pub pure : {A : Type 0} → A → Reader A
pure a s = ok (a, s)

abbrev pub fail : {A : Type 0} → RequestError → Reader A
fail e s = err e

unfoldable pub has_more : Reader Bool
has_more [] = ok (false, [])
has_more (c ∷ cs) = ok (true, c ∷ cs)

unfoldable pub get_char : Reader ℕ
get_char [] = err parse_error
get_char (c ∷ cs) = ok (c, cs)

unfoldable pub peek : Reader ℕ
peek [] = err parse_error
peek (c ∷ cs) = ok (c, c ∷ cs)

unfoldable pub check_char : ℕ → Reader Bool
unfolding peek get_char
check_char ch = do c ← peek; if c == ch then (get_char >> pure true) else pure false

unfoldable pub check_string : Bytes → Reader Bool
unfolding starts_with
check_string s data_left =
    if starts_with s data_left then ok (true, drop (length s) data_left) else ok (false, data_left)

unfoldable pub assert_char_not : ℕ → Reader (Unit {0})
unfolding peek
assert_char_not ch = do c ← peek; if c == ch then fail parse_error else pure tt

unfoldable pub expect_char : ℕ → Reader (Unit {0})
unfolding get_char
expect_char ch = do c ← get_char; if c == ch then pure tt else fail parse_error

unfoldable pub expect_string : Bytes → Reader (Unit {0})
unfolding expect_char
expect_string [] = pure tt
expect_string (c ∷ s) = expect_char c >> expect_string s

-- `expect_more(n)`.
unfoldable pub expect_more : ℕ → Reader (Unit {0})
expect_more n s = if leb n (length s) then ok (tt, s) else err parse_error

unfoldable pub expect_end : Reader (Unit {0})
expect_end [] = ok (tt, [])
expect_end (c ∷ cs) = err parse_error

-- `while (peek() == ' ') get_char();`: at the end `peek` throws.
unfoldable pub skip_space : Reader (Unit {0})
skip_space [] = err parse_error
skip_space (c ∷ cs) = if c == b' ' then skip_space cs else ok (tt, c ∷ cs)

unfoldable pub from_hex : ℕ → Option ℕ
from_hex c =
    if between b'0' b'9' c
    then some (c - 48)
    else if between b'a' b'f' c
    then some (10 + (c - 97))
    else if between b'A' b'F' c
    then some (10 + (c - 65))
    else none

unfoldable pub hex_value : Option ℕ → Reader ℕ
hex_value none = fail parse_error
hex_value (some d) = pure d

unfoldable pub read_byte : Reader ℕ
unfolding get_char from_hex hex_value
read_byte = do
  h ← get_char
  c1 ← hex_value (from_hex h)
  l ← get_char
  c2 ← hex_value (from_hex l)
  pure ((c1 * 16 + c2) % 256)

unfoldable pub narrow : ℕ → Result StoulError (ℕ × Bytes) → Result RequestError (ℕ × Bytes)
narrow bits (ok (value, rest)) = ok (value % 2 ^ bits, rest)
narrow bits (err e) = err (number_error e)

-- `read_hex_number<Value_t>` for a type of `bits` bits: `std::stoull(..., 16)`, then the conversion.
unfoldable pub read_hex_number : ℕ → Reader ℕ
unfolding narrow stoul
read_hex_number bits s = narrow bits (stoul 16 s)

-- `read_hex_number_respecting_endianness` for a type of `n` bytes, on a little-endian host.
unfoldable pub read_hex_number_respecting_endianness : ℕ → Reader ℕ
unfolding read_byte
read_hex_number_respecting_endianness zero = pure 0
read_hex_number_respecting_endianness (suc n) = do
  low ← read_byte
  high ← read_hex_number_respecting_endianness n
  pure (low + 256 * high)

unfoldable pub read_until_end : Reader Bytes
read_until_end s = ok (s, [])

-- The text up to `ch`, which is passed over.
unfoldable pub read_until_char_or_end : ℕ → Reader Bytes
read_until_char_or_end ch [] = ok ([], [])
read_until_char_or_end ch (c ∷ cs) = elim (c == ch) [
  | true ↦ ok ([], cs)
  | false ↦ elim (read_until_char_or_end ch cs) [ ok (s, rest) ↦ ok (c ∷ s, rest) | err e ↦ err e ]
]

unfoldable pub all_equal : ℕ → Bytes → Bool
all_equal c [] = true
all_equal c (d ∷ ds) = d == c && all_equal c ds

unfoldable pub word_of :
    ℕ → Bytes → Result StoulError (ℕ × Bytes) → Result RequestError (Option ℕ × Bytes)
word_of bits rest (ok (value, [])) = ok (some (value % 2 ^ bits), rest)
word_of bits rest (ok (value, _ ∷ _)) = err parse_error
word_of bits rest (err e) = err (number_error e)

-- `read_word_unsigned_opt` for a type of `n` bytes. A word of `x` is not passed over.
unfoldable pub read_word_unsigned_opt : ℕ → Reader (Option ℕ)
unfolding word_of stoul all_equal
read_word_unsigned_opt n s =
    if leb (2 * n) (length s)
    then (let word = take (2 * n) s in
        if all_equal b'x' word
        then ok (none, s)
        else word_of (8 * n) (drop (2 * n) s) (stoul 16 word))
    else err parse_error

-- A step that succeeds hands its value and the text that is left to what follows.
pub >>=-ok :
    {A B : Type 0} (m : Reader A) (f : A → Reader B) (s : Bytes) {a : A} {s' : Bytes}
    → m s ≡ ok (a, s')
    → (m >>= f) s ≡ f a s'
>>=-ok m f s h = rw (h, ◌>>=◌)

-- At most this many characters are left.
abbrev Leaves : {A : Type 0} → ℕ → Result RequestError (A × Bytes) → Type 0
Leaves n (ok (a, rest)) = length rest ≤ n
Leaves n (err e) = Unit {0}

read_until_char_or_end-Leaves :
    (ch : ℕ) (s : Bytes) → Leaves (length s - 1) (read_until_char_or_end ch s)
unfolding read_until_char_or_end
read_until_char_or_end-Leaves ch [] = omega arith
read_until_char_or_end-Leaves ch (c ∷ cs) = elim (Bool-cases (c == ch)) [
  | inl e ↦ rw (e, Leaves) (omega arith)
  | inr e ↦
      rw (e, Leaves) (behind (read_until_char_or_end ch cs) (read_until_char_or_end-Leaves ch cs))
]
  where
    behind :
        (r : Result RequestError (Bytes × Bytes))
        → Leaves (length cs - 1) r
        → Leaves (suc (length cs) - 1) (elim r [ ok (s, rest) ↦ ok (c ∷ s, rest) | err e ↦ err e ])
    behind (ok (s, rest)) h = omega arith
    behind (err e) h = tt

-- Where some text is left, it takes a character at least.
pub read_until_char_or_end-shorter :
    (ch : ℕ) (s : Bytes) {taken rest : Bytes}
    → read_until_char_or_end ch s ≡ ok (taken, rest)
    → length rest ≤ length s - 1
read_until_char_or_end-shorter ch s e =
    subst (Leaves (length s - 1)) e (read_until_char_or_end-Leaves ch s)
