-- ===== src/Expr/Tokenizer/Numbers.antt =====
-- A number that std::stoul reads takes a character or more.
use xendbg.Prelude.{
  ℕ, suc, ◌+◌, ◌*◌, ◌≤◌, ◌<◌, ◌≡◌, Bool, true, false, Bool-cases, Option-cases, inl, inr, ◌&&◌,
  ◌||◌, ◌==◌, none, [], ◌∷◌, Bytes, length, Result, ok, err, leb, arith,
}
use xendbg.Text.{
  skip_spaces, is_space, read_digits, starts_digit, digit_in, skip_prefix, stoul, stoul_signed,
  stoul_unsigned, StoulError, u64_mod,
}

pub skip_spaces_le : (s : Bytes) → length (skip_spaces s) ≤ length s
unfolding skip_spaces
skip_spaces_le [] = omega arith
skip_spaces_le (c ∷ cs) = elim (Bool-cases (is_space c)) [
  | inl e ↦ rw e (omega (arith, skip_spaces_le cs))
  | inr e ↦ rw e (omega arith)
]

read_digits_le : (base acc : ℕ) (s : Bytes) → length (read_digits base acc s).1 ≤ length s
unfolding read_digits
read_digits_le base acc [] = omega arith
read_digits_le base acc (c ∷ cs) = elim (Option-cases (digit_in base c)) [
  | inl e ↦ rw (e, read_digits) (omega arith)
  | inr (d, e) ↦ rw (e, read_digits) (omega (arith, read_digits_le base (acc * base + d) cs))
]

starts_none :
    (base c : ℕ) (cs : Bytes) → digit_in base c ≡ none → starts_digit base (c ∷ cs) ≡ true → ⊥
unfolding starts_digit
starts_none base c cs e h = cc (rw (e, starts_digit) at h)

read_digits_lt :
    (base : ℕ) (s : Bytes) → starts_digit base s ≡ true → length (read_digits base 0 s).1 < length s
unfolding read_digits starts_digit
read_digits_lt base [] h = cc
read_digits_lt base (c ∷ cs) h = elim (Option-cases (digit_in base c)) [
  | inl e ↦ absurd (starts_none base c cs e h)
  | inr (d, e) ↦ rw (e, read_digits) (omega (arith, read_digits_le base (0 * base + d) cs))
]

-- The number that follows a prefix is shorter than the text with the prefix.
digits_behind_prefix :
    (base : ℕ) (s : Bytes)
    → starts_digit base s ≡ true
    → length (read_digits base 0 (skip_prefix base s)).1 < length s
unfolding skip_prefix
digits_behind_prefix base [] h = read_digits_lt base [] h
digits_behind_prefix base (c ∷ []) h = read_digits_lt base (c ∷ []) h
digits_behind_prefix base (z ∷ x ∷ cs) h =
    elim (Bool-cases
      (base == 16 && z == b'0' && (x == b'x' || x == b'X') && starts_digit base cs)) [
        | inl e ↦ rw e (omega (arith, read_digits_le base 0 cs))
        | inr e ↦ rw e (read_digits_lt base (z ∷ x ∷ cs) h)
      ]

-- A number that is read leaves less than `n` characters.
abbrev pub ReadsSome : ℕ → Result StoulError (ℕ × Bytes) → Type 0
ReadsSome n (ok (v, rest)) = length rest < n
ReadsSome n (err e) = Unit

stoul_unsigned-ReadsSome :
    (negative : Bool) (base : ℕ) (s : Bytes) → ReadsSome (length s) (stoul_unsigned negative base s)
unfolding stoul_unsigned
stoul_unsigned-ReadsSome negative base s = elim (Bool-cases (starts_digit base s)) [
  | inl e ↦
      let shorter = digits_behind_prefix base s e in
      rw e (elim (Bool-cases (leb u64_mod (read_digits base 0 (skip_prefix base s)).0)) [
        | inl big ↦ rw big tt
        | inr small ↦ rw small shorter
      ])
  | inr e ↦ rw e tt
]

pub weaken-ReadsSome :
    (n k : ℕ) (r : Result StoulError (ℕ × Bytes)) → n ≤ k → ReadsSome n r → ReadsSome k r
weaken-ReadsSome n k (ok (v, rest)) h s = omega (arith, h, s)
weaken-ReadsSome n k (err e) h s = tt

stoul_signed-ReadsSome : (base : ℕ) (s : Bytes) → ReadsSome (length s) (stoul_signed base s)
unfolding stoul_signed
stoul_signed-ReadsSome base [] = tt
stoul_signed-ReadsSome base (c ∷ cs) = elim (Bool-cases (c == b'-')) [
  | inl e ↦ rw e (
      weaken-ReadsSome (length cs) (suc (length cs)) _ (omega arith)
        (stoul_unsigned-ReadsSome true base cs))
  | inr e ↦ rw e (elim (Bool-cases (c == b'+')) [
    | inl p ↦ rw p (
        weaken-ReadsSome (length cs) (suc (length cs)) _ (omega arith)
          (stoul_unsigned-ReadsSome false base cs))
    | inr p ↦ rw p (stoul_unsigned-ReadsSome false base (c ∷ cs))
  ])
]

pub stoul-ReadsSome : (base : ℕ) (s : Bytes) → ReadsSome (length s) (stoul base s)
unfolding stoul
stoul-ReadsSome base s =
    weaken-ReadsSome (length (skip_spaces s)) (length s) _ (skip_spaces_le s)
      (stoul_signed-ReadsSome base (skip_spaces s))
