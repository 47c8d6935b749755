-- ===== src/Gdb/Request/Digits.antt =====
-- The cursor reads back what a client prints: bytes as two digits, and numbers in hexadecimal.
use native.Mathlib.Nat.{mod-eq_of_lt}
use native.Mathlib.Numerals.{unary_clauses}
use xendbg.Prelude.{
  ℕ, zero, suc, ◌+◌, ◌*◌, ◌/◌, ◌%◌, ◌^◌, ◌<◌, ◌≡◌, refl, ◌∙◌, ap, Bool, true, false, ◌&&◌, Option,
  none, some, leb, ◌==◌, ==_iff, List, [], ◌∷◌, ◌++◌, Bytes, All, length, ok, arith, holds_below,
  holds_below-at, append_assoc,
}
use xendbg.Text.{
  hex_digit, digit_in, is_space, read_digits, starts_digit, skip_spaces, skip_prefix, stoul,
  stoul_signed, stoul_unsigned, u64_mod,
}
use xendbg.Gdb.Packet.{hex_byte}
use xendbg.Gdb.Reader.{
  ◌>>=◌, >>=-ok, pure, read_byte, read_hex_number, read_hex_number_respecting_endianness, from_hex,
  get_char, hex_value, narrow,
}
use xendbg.Gdb.Request.{read_bytes}
use xendbg.Gdb.Response.{hexify, write_bytes}

is_some : ℕ → Option ℕ → Bool
is_some d none = false
is_some d (some e) = e == d

is_some-eq : (d : ℕ) (o : Option ℕ) → is_some d o ≡ true → o ≡ some d
unfolding is_some
is_some-eq d none h = cc
is_some-eq d (some e) h = rw ((==_iff e d).0 h)

from_hex_table : holds_below (λ d. is_some d (from_hex (hex_digit d))) 16 ≡ true
unfolding holds_below is_some from_hex hex_digit
from_hex_table = refl

from_hex-hex_digit : (d : ℕ) → d < 16 → from_hex (hex_digit d) ≡ some d
from_hex-hex_digit d h =
    is_some-eq d (from_hex (hex_digit d))
      (holds_below-at (λ m. is_some m (from_hex (hex_digit m))) 16 d h from_hex_table)

-- The two digits of a byte are read as the byte, and passed over.
pub read_byte-hex_byte :
    (b : ℕ) (rest : Bytes) → b < 256 → read_byte (hex_byte b ++ rest) ≡ ok (b, rest)
unfolding read_byte hex_byte get_char hex_value
read_byte-hex_byte b rest h =
    rw (from_hex-hex_digit (b / 16) (omega arith), from_hex-hex_digit (b % 16) (omega arith))
      (ap (λ v. ok (v, rest)) (omega arith))

-- The text of a memory block, as `hexify` writes it, is read back as the block.
pub read_bytes-hexify :
    (bytes rest : Bytes)
    → All (λ b. b < 256) bytes
    → read_bytes (length bytes) (hexify bytes ++ rest) ≡ ok (bytes, rest)
unfolding read_bytes hexify
read_bytes-hexify [] rest h = refl
read_bytes-hexify (b ∷ bytes) rest h = rw (append_assoc (hex_byte b) (hexify bytes) rest) (
    >>=-ok read_byte (λ c. read_bytes (length bytes) >>= (λ cs. pure (c ∷ cs)))
      (hex_byte b ++ (hexify bytes ++ rest)) (read_byte-hex_byte b (hexify bytes ++ rest) h.0)
    ∙ >>=-ok (read_bytes (length bytes)) (λ cs. pure (b ∷ cs)) (hexify bytes ++ rest)
        (read_bytes-hexify bytes rest h.1))

div_bound : (v x : ℕ) → v < x * 256 → v / 256 < x
div_bound v x h = omega arith

-- The value of a register, as `write_bytes` writes it, is read back.
pub read_hex_number-write_bytes :
    (n value : ℕ) (rest : Bytes)
    → value < 256 ^ n
    → read_hex_number_respecting_endianness n (write_bytes n value ++ rest) ≡ ok (value, rest)
unfolding read_hex_number_respecting_endianness write_bytes
read_hex_number-write_bytes zero value rest h = ap (λ v. ok (v, rest)) (omega arith)
read_hex_number-write_bytes (suc n) value rest h =
    rw (append_assoc (hex_byte (value % 256)) (write_bytes n (value / 256)) rest) (
      >>=-ok read_byte
        (λ low. read_hex_number_respecting_endianness n >>= (λ high. pure (low + 256 * high)))
        (hex_byte (value % 256) ++ (write_bytes n (value / 256) ++ rest))
        (read_byte-hex_byte (value % 256) (write_bytes n (value / 256) ++ rest) (omega arith))
      ∙ >>=-ok (read_hex_number_respecting_endianness n) (λ high. pure (value % 256 + 256 * high))
          (write_bytes n (value / 256) ++ rest)
          (read_hex_number-write_bytes n (value / 256) rest
            (div_bound value (256 ^ n) (simp unary_clauses at h)))
      ∙ ap (λ v. ok (v, rest)) (omega arith))

-- A number in hexadecimal: its digits, the leading one first.
abbrev pub digits_text : List ℕ → Bytes
digits_text [] = []
digits_text (d ∷ ds) = hex_digit d ∷ digits_text ds

abbrev pub digits_value : ℕ → List ℕ → ℕ
digits_value acc [] = acc
digits_value acc (d ∷ ds) = digits_value (acc * 16 + d) ds

-- What may follow a number: nothing, or a character that is neither a digit nor an `x`.
abbrev pub EndsNumber : Bytes → Type 0
EndsNumber [] = Unit
EndsNumber (c ∷ cs) = (digit_in 16 c ≡ none) × ((c == b'x') ≡ false) × ((c == b'X') ≡ false)

digit_table : holds_below (λ d. is_some d (digit_in 16 (hex_digit d))) 16 ≡ true
unfolding holds_below is_some digit_in hex_digit
digit_table = refl

digit_in-hex_digit : (d : ℕ) → d < 16 → digit_in 16 (hex_digit d) ≡ some d
digit_in-hex_digit d h =
    is_some-eq d (digit_in 16 (hex_digit d))
      (holds_below-at (λ m. is_some m (digit_in 16 (hex_digit m))) 16 d h digit_table)

read_digits-digits_text :
    (ds : List ℕ) (acc : ℕ) (rest : Bytes)
    → All (λ d. d < 16) ds
    → EndsNumber rest
    → read_digits 16 acc (digits_text ds ++ rest) ≡ (digits_value acc ds, rest)
unfolding read_digits
read_digits-digits_text [] acc [] h e = refl
read_digits-digits_text [] acc (c ∷ cs) h e = rw (e.0, read_digits) refl
read_digits-digits_text (d ∷ ds) acc rest h e =
    rw (digit_in-hex_digit d h.0, read_digits)
      (read_digits-digits_text ds (acc * 16 + d) rest h.1 e)

-- A digit is neither a space, nor a sign, nor the `x` of a prefix.
hex_digit-plain :
    (d : ℕ)
    → d < 16
    → (is_space (hex_digit d) ≡ false)
      × ((hex_digit d == b'-') ≡ false)
      × ((hex_digit d == b'+') ≡ false)
      × ((hex_digit d == b'x') ≡ false)
      × ((hex_digit d == b'X') ≡ false)
unfolding is_space hex_digit
hex_digit-plain d h = ground arith

no_prefix : (zero_first digit : Bool) → (16 == 16 && zero_first && false && digit) ≡ false
no_prefix true digit = refl
no_prefix false digit = refl

below-leb : (m v : ℕ) → v < m → leb m v ≡ false
below-leb m v h = ground arith

-- No prefix `0x` is found in front of digits.
skip_prefix-digits_text :
    (d : ℕ) (ds : List ℕ) (rest : Bytes)
    → All (λ m. m < 16) ds
    → EndsNumber rest
    → skip_prefix 16 (digits_text (d ∷ ds) ++ rest) ≡ digits_text (d ∷ ds) ++ rest
unfolding skip_prefix
skip_prefix-digits_text d [] [] h e = refl
skip_prefix-digits_text d [] (c ∷ cs) h e =
    rw (e.1, e.2, no_prefix (hex_digit d == b'0') (starts_digit 16 cs)) refl
skip_prefix-digits_text d (m ∷ ds) rest h e =
    let p = hex_digit-plain m h.0 in
    rw (p.3, p.4, no_prefix (hex_digit d == b'0') (starts_digit 16 (digits_text ds ++ rest))) refl

-- A number of a request is read from its digits, if it fits the type of `bits` bits.
pub read_hex_number-digits_text :
    (bits d : ℕ) (ds : List ℕ) (rest : Bytes)
    → All (λ d. d < 16) (d ∷ ds)
    → EndsNumber rest
    → digits_value 0 (d ∷ ds) < 2 ^ bits
    → digits_value 0 (d ∷ ds) < u64_mod
    → read_hex_number bits (digits_text (d ∷ ds) ++ rest) ≡ ok (digits_value 0 (d ∷ ds), rest)
unfolding read_hex_number narrow stoul skip_spaces stoul_signed stoul_unsigned starts_digit
read_hex_number-digits_text bits d ds rest h e b w =
    let p = hex_digit-plain d h.0 in
    rw
      (
        p.0,
        skip_spaces,
        p.1,
        stoul_signed,
        p.2,
        digit_in-hex_digit d h.0,
        starts_digit,
        skip_prefix-digits_text d ds rest h.1 e,
        read_digits-digits_text (d ∷ ds) 0 rest h e,
        below-leb u64_mod (digits_value 0 (d ∷ ds)) w,
      )
      (ap (λ v. ok (v, rest)) (mod-eq_of_lt b))
