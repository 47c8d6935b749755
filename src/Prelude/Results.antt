-- ===== src/Prelude/Results.antt =====
-- What code that may throw comes to: a value, or the exception with what it carries.
pub data Result (E A : Type 0) : Type 0 where
  err : E → Result E A
  ok : A → Result E A

infixl 5 ◌>>=◌ ◌>>◌
abbrev pub ◌>>=◌ : {A B E : Type 0} → Result E A → (A → Result E B) → Result E B
err thrown >>= next = err thrown
ok value >>= next = next value

abbrev pub ◌>>◌ : {A B E : Type 0} → Result E A → Result E B → Result E B
first >> second = first >>= (λ _. second)
