-- ===== src/Gdb/Request/Client.antt =====
-- The requests as a client prints them, and what the classes make of the text.
pub mod Commands
pub mod Rejected
use mathlib.Core.Path.{subst}
use xendbg.Prelude.{
  ℕ, ◌^◌, ◌<◌, ◌≡◌, refl, ◌∙◌, true, some, List, [], ◌∷◌, ◌++◌, Bytes, All, length, ok, arith,
  append-nil,
}
use xendbg.Prelude.{==_refl, ltb}
use xendbg.Text.{codes, digit_in}
use xendbg.Gdb.Reader.{
  ◌>>=◌, ◌>>◌, >>=-ok, pure, expect_char, expect_end, expect_string, read_hex_number, check_char,
  peek, get_char,
}
use xendbg.Gdb.Request.{
  Request, memory_read, memory_write, register_write, memory_read_request, memory_write_request,
  breakpoint_request, register_write_request, read_bytes, reserve, read_thread,
}
use xendbg.Gdb.Request.Digits.{
  digits_text, digits_value, EndsNumber, read_hex_number-digits_text, read_bytes-hexify,
  read_hex_number-write_bytes,
}
use xendbg.Gdb.Response.{hexify, write_bytes}

-- A number of a request: one digit or more, of a value below 2^`bits`.
pub record Number (bits : ℕ) : Type 0 where
  pub first : ℕ
  pub others : List ℕ
  pub are_digits : All (λ d. d < 16) (first ∷ others)
  pub fits : digits_value 0 (first ∷ others) < 2 ^ bits

abbrev pub text : {bits : ℕ} → Number bits → Bytes
text n = digits_text (n.first ∷ n.others)

abbrev pub value : {bits : ℕ} → Number bits → ℕ
value n = digits_value 0 (n.first ∷ n.others)

read_number :
    {bits : ℕ} (n : Number bits) (rest : Bytes)
    → EndsNumber rest
    → value n < 2 ^ 64
    → read_hex_number bits (text n ++ rest) ≡ ok (value n, rest)
read_number {bits} n rest e w =
    read_hex_number-digits_text bits n.first n.others rest n.are_digits e n.fits w

pub last_number :
    {bits : ℕ} (n : Number bits)
    → value n < 2 ^ 64
    → read_hex_number bits (text n) ≡ ok (value n, [])
last_number {bits} n w =
    subst (λ s. read_hex_number bits s ≡ ok (value n, [])) (append-nil (text n))
      (read_number n [] tt w)

pub memory_read_request-text :
    (a n : Number 64)
    → memory_read_request (b'm' ∷ (text a ++ (b',' ∷ text n)))
      ≡ ok (memory_read (value a) (value n), [])
unfolding memory_read_request expect_char expect_end digit_in
memory_read_request-text a n =
    rw (read_number a (b',' ∷ text n) (refl, refl, refl) a.fits, ◌>>=◌)
      (>>=-ok (read_hex_number 64) (λ size. expect_end >> pure (memory_read (value a) size))
        (text n) (last_number n n.fits))

lt-ltb : (a b : ℕ) → a < b → ltb a b ≡ true
lt-ltb a b h = ground arith

reserve-ok : (n : ℕ) (s : Bytes) → n < 2 ^ 63 → reserve n s ≡ ok (tt, s)
unfolding reserve
reserve-ok n s h = rw (lt-ltb n (2 ^ 63) h) refl

last_bytes :
    (n : ℕ) (bytes : Bytes)
    → All (λ b. b < 256) bytes
    → n ≡ length bytes
    → read_bytes n (hexify bytes) ≡ ok (bytes, [])
last_bytes n bytes h e = rw e (
    subst (λ s. read_bytes (length bytes) s ≡ ok (bytes, [])) (append-nil (hexify bytes))
      (read_bytes-hexify bytes [] h))

pub memory_write_request-text :
    (a n : Number 64) (bytes : Bytes)
    → All (λ b. b < 256) bytes
    → value n ≡ length bytes
    → value n < 2 ^ 63
    → memory_write_request (b'M' ∷ (text a ++ (b',' ∷ (text n ++ (b':' ∷ hexify bytes)))))
      ≡ ok (memory_write (value a) (value n) bytes, [])
unfolding memory_write_request expect_char expect_end digit_in
memory_write_request-text a n bytes h e w =
    rw (read_number a (b',' ∷ (text n ++ (b':' ∷ hexify bytes))) (refl, refl, refl) a.fits, ◌>>=◌)
      (rw (read_number n (b':' ∷ hexify bytes) (refl, refl, refl) n.fits, ◌>>=◌)
        (>>=-ok (reserve (value n))
            (λ _.
              read_bytes (value n)
              >>= (λ data_read. expect_end >> pure (memory_write (value a) (value n) data_read)))
            (hexify bytes) (reserve-ok (value n) (hexify bytes) w)
          ∙ >>=-ok (read_bytes (value n))
              (λ data_read. expect_end >> pure (memory_write (value a) (value n) data_read))
              (hexify bytes) (last_bytes (value n) bytes h e)))

expect_char-same : (c : ℕ) (s : Bytes) → expect_char c (c ∷ s) ≡ ok (tt, s)
unfolding expect_char get_char
expect_char-same c s = rw (==_refl c) refl

pub breakpoint_request-text :
    (header : ℕ) (request : ℕ → ℕ → ℕ → Request) (type : Number 8) (a : Number 64) (kind : Number 8)
    → breakpoint_request header request
        (header ∷ (text type ++ (b',' ∷ (text a ++ (b',' ∷ text kind)))))
      ≡ ok (request (value type) (value a) (value kind), [])
unfolding breakpoint_request expect_char expect_end digit_in
breakpoint_request-text header request type a kind =
    rw (expect_char-same header (text type ++ (b',' ∷ (text a ++ (b',' ∷ text kind)))), ◌>>◌, ◌>>=◌)
      (rw
        (
          read_number type (b',' ∷ (text a ++ (b',' ∷ text kind))) (refl, refl, refl)
              (omega (arith, type.fits)),
          ◌>>=◌,
        )
        (rw (read_number a (b',' ∷ text kind) (refl, refl, refl) a.fits, ◌>>=◌)
          (>>=-ok (read_hex_number 8) (λ k. expect_end >> pure (request (value type) (value a) k))
            (text kind) (last_number kind (omega (arith, kind.fits))))))

pub register_write_request-text :
    (id : Number 16) (v : ℕ) (thread : Number 64)
    → v < 2 ^ 64
    → register_write_request (
        b'P'
        ∷ (text id
            ++ (b'=' ∷ (write_bytes 8 v ++ (codes ";thread:" ++ (text thread ++ codes ";"))))))
      ≡ ok (register_write (value id) v (some (value thread)), [])
unfolding register_write_request expect_char expect_end expect_string check_char peek get_char
    read_thread digit_in
register_write_request-text id v thread h =
    let suffix = codes ";thread:" ++ (text thread ++ codes ";") in
    rw
      (
        read_number id (b'=' ∷ (write_bytes 8 v ++ suffix)) (refl, refl, refl)
            (omega (arith, id.fits)),
        ◌>>=◌,
      )
      (rw (read_hex_number-write_bytes 8 v suffix h, ◌>>=◌)
        (rw (read_number thread (codes ";") (refl, refl, refl) thread.fits, ◌>>=◌) refl))
