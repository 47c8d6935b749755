-- ===== src/Text.antt =====
-- The text primitives that the source takes from the C++ standard library: `std::stoul` and
-- `std::stoull` over the characters of a string, and the output of a number under `std::hex`.
use Prim.Native.Char.{code}
use Prim.Native.String.{String}
use xendbg.Prelude.{
  ℕ, zero, suc, ◌+◌, ◌-◌, ◌*◌, ◌/◌, ◌%◌, ◌^◌, Bool, true, false, ◌&&◌, ◌||◌, [], ◌∷◌, Option, none,
  some, ltb, leb, ◌==◌, if◌then◌else◌, Bytes, Result, ok, err,
}

-- The bytes of an ASCII literal.
abbrev pub codes : String → Bytes
codes String.[] = []
codes (String.◌∷◌ c s) = code c ∷ codes s

abbrev pub between : ℕ → ℕ → ℕ → Bool
between lo hi c = leb lo c && leb c hi

-- `std::isspace` in the C locale.
unfoldable pub is_space : ℕ → Bool
is_space c = c == b' ' || between 9 13 c

unfoldable pub is_alpha : ℕ → Bool
is_alpha c = between b'a' b'z' c || between b'A' b'Z' c

unfoldable pub is_digit : ℕ → Bool
is_digit c = between b'0' b'9' c

-- The value of a digit of any base up to 36.
unfoldable pub digit_value : ℕ → Option ℕ
digit_value c =
    if between b'0' b'9' c
    then some (c - 48)
    else if between b'a' b'z' c
    then some (c - 87)
    else if between b'A' b'Z' c
    then some (c - 55)
    else none

-- The digit that the number reader accepts, if `c` is one in this base.
unfoldable pub digit_in : ℕ → ℕ → Option ℕ
unfolding digit_value
digit_in base c = elim (digit_value c) [
  | none ↦ none
  | some d ↦ if ltb d base then some d else none
]

unfoldable pub skip_spaces : Bytes → Bytes
unfolding is_space
skip_spaces [] = []
skip_spaces (c ∷ cs) = if is_space c then skip_spaces cs else c ∷ cs

-- The longest run of digits, its value in front, and what follows it.
unfoldable pub read_digits : ℕ → ℕ → Bytes → ℕ × Bytes
unfolding digit_in
read_digits base acc [] = (acc, [])
read_digits base acc (c ∷ cs) = elim (digit_in base c) [
  | none ↦ (acc, c ∷ cs)
  | some d ↦ read_digits base (acc * base + d) cs
]

unfoldable pub starts_digit : ℕ → Bytes → Bool
unfolding digit_in
starts_digit base [] = false
starts_digit base (c ∷ _) = elim (digit_in base c) [ none ↦ false | some _ ↦ true ]

-- In base 16 a prefix `0x` or `0X` is skipped where a digit follows it.
unfoldable pub skip_prefix : ℕ → Bytes → Bytes
unfolding starts_digit
skip_prefix base (z ∷ x ∷ cs) =
    if base == 16 && z == b'0' && (x == b'x' || x == b'X') && starts_digit base cs
    then cs
    else z ∷ x ∷ cs
skip_prefix base cs = cs

pub data StoulError : Type 0 where
  invalid_argument out_of_range : StoulError

abbrev pub u64_mod : ℕ
u64_mod = 2 ^ 64

-- The number that starts at `cs`; a minus sign negates it modulo 2^64.
unfoldable pub stoul_unsigned : Bool → ℕ → Bytes → Result StoulError (ℕ × Bytes)
unfolding skip_prefix read_digits
stoul_unsigned negative base cs =
    if starts_digit base cs
    then (let (value, rest) = read_digits base 0 (skip_prefix base cs) in
        if leb u64_mod value
        then err out_of_range
        else ok (if negative then (u64_mod - value) % u64_mod else value, rest))
    else err invalid_argument

unfoldable pub stoul_signed : ℕ → Bytes → Result StoulError (ℕ × Bytes)
unfolding stoul_unsigned
stoul_signed base [] = err invalid_argument
stoul_signed base (c ∷ cs) =
    if c == b'-'
    then stoul_unsigned true base cs
    else stoul_unsigned false base (if c == b'+' then cs else c ∷ cs)

-- `std::stoul(s, &pos, base)` on a 64-bit target: the value and the text behind the number.
unfoldable pub stoul : ℕ → Bytes → Result StoulError (ℕ × Bytes)
unfolding stoul_signed skip_spaces
stoul base s = stoul_signed base (skip_spaces s)

-- A hexadecimal digit as the source's streams write it: lower case.
unfoldable pub hex_digit : ℕ → ℕ
hex_digit n = if ltb n 10 then n + 48 else n + 87

-- The digits of a number in front of `acc`; 64 digits are enough for a 64-bit number.
unfoldable pub print_from : ℕ → ℕ → ℕ → Bytes → Bytes
unfolding hex_digit
print_from zero base n acc = acc
print_from (suc fuel) base n acc =
    let rest = print_from fuel base (n / base) (hex_digit (n % base) ∷ acc) in
    if n / base == 0 then hex_digit (n % base) ∷ acc else rest

unfoldable pub print_number : ℕ → ℕ → Bytes
unfolding print_from
print_number base n = print_from 64 base n []
