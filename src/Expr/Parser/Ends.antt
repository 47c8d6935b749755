-- ===== src/Expr/Parser/Ends.antt =====
-- What the steps of the parser leave of the tokens, and that none of them runs out of fuel.
use xendbg.Prelude.{
  ℕ, suc, ◌≤◌, ◌<◌, ◌≡◌, ◌≢◌, Bool-cases, inl, inr, List, [], ◌∷◌, length, ltb, ok, err, ◌>>=◌,
  arith,
}
use xendbg.Expr.Syntax.{
  plus, minus, star, slash, paren_left, paren_right, equals_sign, Token, UnaryOperator,
  BinaryOperator, Operator, sentinel, unary, binary, Expression, precedence_of,
}
use xendbg.Expr.Parser.{
  Parser, Parsed, ParseError, expect_wrong_token, out_of_fuel, operand_body, merge_operator,
  merge_unary, merge_binary, push_operator_and_merge, merge_to_sentinel, expect_close, consume,
  tail_of, front_pos,
}

-- The call ends, and leaves no more tokens than `n`.
abbrev pub Ends : ℕ → Parsed → Type 0
Ends n (ok p) = length p.tokens ≤ n
Ends n (err e) = e ≢ out_of_fuel

pub >>=-Ends :
    (n k : ℕ) (m : Parsed) (f : Parser → Parsed)
    → Ends n m
    → ((p : Parser) → length p.tokens ≤ n → Ends k (f p))
    → Ends k (m >>= f)
>>=-Ends n k (ok p) f h rest = rest p h
>>=-Ends n k (err e) f h rest = h

pub merge_unary-Ends :
    (op : UnaryOperator) (p : Parser) (xs : List Expression)
    → Ends (length p.tokens) (merge_unary op p xs)
unfolding merge_unary
merge_unary-Ends op p [] = λ h. cc
merge_unary-Ends op p (x ∷ xs) = omega arith

pub merge_binary-Ends :
    (op : BinaryOperator) (p : Parser) (xs : List Expression)
    → Ends (length p.tokens) (merge_binary op p xs)
unfolding merge_binary
merge_binary-Ends op p [] = λ h. cc
merge_binary-Ends op p (x ∷ []) = λ h. cc
merge_binary-Ends op p (y ∷ x ∷ xs) = omega arith

pub merge_operator-Ends :
    (op : Operator) (p : Parser) → Ends (length p.tokens) (merge_operator op p)
unfolding merge_operator
merge_operator-Ends sentinel p = λ h. cc
merge_operator-Ends (unary op) p = merge_unary-Ends op p p.operands
merge_operator-Ends (binary op) p = merge_binary-Ends op p p.operands

pub push-Ends :
    (op : Operator) (ops : List Operator) (p : Parser) (n : ℕ)
    → length p.tokens ≤ n
    → Ends n (push_operator_and_merge op ops p)
unfolding push_operator_and_merge
push-Ends op [] p n h = λ e. cc
push-Ends op (top ∷ rest) p n h = elim (Bool-cases (ltb (precedence_of op) (precedence_of top))) [
  | inl e ↦ rw e (
      >>=-Ends (length p.tokens) n (merge_operator top (record p { operators = rest }))
        (push_operator_and_merge op rest) (merge_operator-Ends top (record p { operators = rest }))
        (λ q small. push-Ends op rest q n (omega (arith, small, h))))
  | inr e ↦ rw e h
]

pub merge_to_sentinel-Ends :
    (ops : List Operator) (p : Parser) (n : ℕ)
    → length p.tokens ≤ n
    → Ends n (merge_to_sentinel ops p)
unfolding merge_to_sentinel
merge_to_sentinel-Ends [] p n h = λ e. cc
merge_to_sentinel-Ends (sentinel ∷ rest) p n h = h
merge_to_sentinel-Ends (unary op ∷ rest) p n h =
    >>=-Ends (length p.tokens) n (merge_operator (unary op) (record p { operators = rest }))
      (merge_to_sentinel rest) (merge_operator-Ends (unary op) (record p { operators = rest }))
      (λ q small. merge_to_sentinel-Ends rest q n (omega (arith, small, h)))
merge_to_sentinel-Ends (binary op ∷ rest) p n h =
    >>=-Ends (length p.tokens) n (merge_operator (binary op) (record p { operators = rest }))
      (merge_to_sentinel rest) (merge_operator-Ends (binary op) (record p { operators = rest }))
      (λ q small. merge_to_sentinel-Ends rest q n (omega (arith, small, h)))

pub length-tail_of : (ts : List Token) (n : ℕ) → length ts ≤ suc n → length (tail_of ts) ≤ n
unfolding tail_of
length-tail_of [] n h = omega arith
length-tail_of (t ∷ ts) n h = omega (arith, h)

pub front_pos-ne :
    (error : ℕ → ParseError) (pos : List ℕ)
    → ((n : ℕ) → error n ≢ out_of_fuel)
    → front_pos error pos ≢ out_of_fuel
unfolding front_pos
front_pos-ne error [] h = λ e. cc
front_pos-ne error (n ∷ pos) h = h n

-- A recursive call on fewer than `n` tokens ends.
abbrev pub EndsBelow : ℕ → (Parser → Parsed) → Type 0
EndsBelow n f = (q : Parser) → length q.tokens < n → Ends (length q.tokens) (f q)

pub weaken : (n k : ℕ) (r : Parsed) → n ≤ k → Ends n r → Ends k r
weaken n k (ok p) h e = omega (arith, h, e)
weaken n k (err x) h e = e

pub consume-length : (p : Parser) (n : ℕ) → length p.tokens ≤ suc n → length (consume p).tokens ≤ n
unfolding consume
consume-length p n h = length-tail_of p.tokens n h

pub expect_close-Ends :
    (p : Parser) (ts : List Token) (n : ℕ) → length p.tokens ≤ n → Ends n (expect_close p ts)
unfolding expect_close
expect_close-Ends p [] n h = λ e. cc
expect_close-Ends p (Token.constant v ∷ ts) n h =
    front_pos-ne expect_wrong_token p.tokens_pos (λ k e. cc)
expect_close-Ends p (Token.label v ∷ ts) n h =
    front_pos-ne expect_wrong_token p.tokens_pos (λ k e. cc)
expect_close-Ends p (Token.variable v ∷ ts) n h =
    front_pos-ne expect_wrong_token p.tokens_pos (λ k e. cc)
expect_close-Ends p (Token.symbol plus ∷ ts) n h =
    front_pos-ne expect_wrong_token p.tokens_pos (λ k e. cc)
expect_close-Ends p (Token.symbol minus ∷ ts) n h =
    front_pos-ne expect_wrong_token p.tokens_pos (λ k e. cc)
expect_close-Ends p (Token.symbol star ∷ ts) n h =
    front_pos-ne expect_wrong_token p.tokens_pos (λ k e. cc)
expect_close-Ends p (Token.symbol slash ∷ ts) n h =
    front_pos-ne expect_wrong_token p.tokens_pos (λ k e. cc)
expect_close-Ends p (Token.symbol paren_left ∷ ts) n h =
    front_pos-ne expect_wrong_token p.tokens_pos (λ k e. cc)
expect_close-Ends p (Token.symbol equals_sign ∷ ts) n h =
    front_pos-ne expect_wrong_token p.tokens_pos (λ k e. cc)
expect_close-Ends p (Token.symbol paren_right ∷ ts) n h =
    consume-length (record p { operators = tail_of p.operators }) n (omega (arith, h))

-- A prefix operator: the push, and the unit behind it.
pub prefix-Ends :
    (u : Parser → Parsed) (op : Operator) (p : Parser) (n : ℕ)
    → length p.tokens ≡ suc n
    → EndsBelow (suc n) u
    → Ends (suc n) (push_operator_and_merge op p.operators p >>= (λ p'. u (consume p')))
prefix-Ends u op p n h hu =
    >>=-Ends (suc n) (suc n) (push_operator_and_merge op p.operators p) (λ p'. u (consume p'))
      (push-Ends op p.operators p (suc n) (omega (arith, h)))
      (λ q small.
        let fewer = consume-length q n small in
        weaken (length (consume q).tokens) (suc n) (u (consume q)) (omega (arith, fewer))
          (hu (consume q) (omega (arith, fewer))))

pub operand_body-Ends :
    (u : Parser → Parsed) (p : Parser) (ts : List Token) (n : ℕ)
    → length p.tokens ≤ n
    → EndsBelow (suc n) u
    → Ends n (operand_body u p ts)
unfolding operand_body
operand_body-Ends u p [] n h hu = λ x. cc
operand_body-Ends u p (t ∷ ts) n h hu = weaken (length p.tokens) n (u p) h (hu p (omega (arith, h)))

pub round-Ends :
    (u l : Parser → Parsed) (op : Operator) (p : Parser) (n : ℕ)
    → length p.tokens ≡ suc n
    → EndsBelow (suc n) u
    → EndsBelow (suc n) l
    → Ends (suc n) (
        push_operator_and_merge op p.operators p
        >>= (λ p'. operand_body u (consume p') (consume p').tokens >>= (λ p''. l p'')))
round-Ends u l op p n h hu hl =
    >>=-Ends (suc n) (suc n) (push_operator_and_merge op p.operators p) _
      (push-Ends op p.operators p (suc n) (omega (arith, h)))
      (λ q small.
        >>=-Ends n (suc n) (operand_body u (consume q) (consume q).tokens) (λ p''. l p'')
          (operand_body-Ends u (consume q) (consume q).tokens n (consume-length q n small) hu)
          (λ r fewer.
            weaken (length r.tokens) (suc n) (l r) (omega (arith, fewer))
              (hl r (omega (arith, fewer)))))
