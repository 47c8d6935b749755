-- ===== src/Gdb/Request.antt =====
-- The requests (include/GDBServer/GDBRequest, src/GDBServer/GDBRequest): one constructor for each
-- class, and the constructors of the classes, which parse the contents of a packet.
pub mod Digits
pub mod Client
use mathlib.Core.WellFounded.{Acc}
use xendbg.Prelude.{
  ℕ, zero, suc, ◌+◌, ◌-◌, ◌/◌, ◌^◌, ◌≡◌, ◌<◌, refl, Bool, true, false, Option, none, some, ltb,
  ◌==◌, if◌then◌else◌, List, [], ◌∷◌, Bytes, length, Result, ok, err, arith,
}
use xendbg.Text.{codes}
use xendbg.Gdb.Reader.{
  RequestError, parse_error, length_error, Reader, ◌>>=◌, ◌>>◌, pure, fail, has_more, check_char,
  expect_char, expect_string, expect_end, read_byte, read_hex_number,
  read_hex_number_respecting_endianness, read_until_char_or_end, read_until_char_or_end-shorter,
  read_word_unsigned_opt,
}

abbrev pub no_thread : ℕ
no_thread = 2 ^ 64 - 1  -- (size_t)-1

pub data Request : Type 0 where
  start_no_ack_mode interrupt query_watchpoint_support_info : Request
  query_supported : List Bytes → Request
  query_enable_error_strings query_thread_suffix_supported : Request
  query_list_threads_in_stop_reply_supported query_current_thread_id : Request
  query_thread_info_start query_thread_info_continuing : Request
  query_host_info query_process_info : Request
  query_register_info : ℕ → Request
  query_memory_region_info : ℕ → Request
  stop_reason kill : Request
  set_thread : Option Bool → ℕ → Request  -- `some true` is Op::StepAndContinue
  register_read : ℕ → ℕ → Request
  register_write : ℕ → ℕ → Option ℕ → Request
  general_registers_batch_read : ℕ → Request
  general_registers_batch_write : List (ℕ × ℕ) → Request
  memory_read : ℕ → ℕ → Request
  memory_write : ℕ → ℕ → Bytes → Request
  continue_ : Request
  continue_signal : ℕ → Request
  step : Request
  step_signal : ℕ → Request
  breakpoint_insert : ℕ → ℕ → ℕ → Request  -- type, address, kind
  breakpoint_remove : ℕ → ℕ → ℕ → Request
  restart : Request
  detach : ℕ → Request

-- DECLARE_SIMPLE_REQUEST.
unfoldable pub simple_request : Bytes → Request → Reader Request
unfolding expect_string expect_end
simple_request header request = do expect_string header; expect_end; pure request

-- The class of DECLARE_SIGNAL_REQUESTS with a signal.
unfoldable pub signal_request : ℕ → (ℕ → Request) → Reader Request
unfolding expect_char read_byte expect_end
signal_request header request = do
  expect_char header
  signal ← read_byte
  expect_end
  pure (request signal)

-- DECLARE_BREAKPOINT_REQUEST.
unfoldable pub breakpoint_request : ℕ → (ℕ → ℕ → ℕ → Request) → Reader Request
unfolding expect_char read_hex_number expect_end
breakpoint_request header request = do
  expect_char header
  type ← read_hex_number 8
  expect_char b','
  address ← read_hex_number 64
  expect_char b','
  kind ← read_hex_number 8
  expect_end
  pure (request type address kind)

unfoldable pub restart_request : Reader Request
unfolding expect_char read_byte expect_end
restart_request = do expect_char b'R'; ignored ← read_byte; expect_end; pure restart

unfoldable pub read_pid : Bool → Reader ℕ
unfolding expect_char read_hex_number
read_pid false = pure 0
read_pid true = do expect_char b';'; read_hex_number 64

unfoldable pub detach_request : Reader Request
unfolding expect_char has_more read_pid expect_end
detach_request = do
  expect_char b'D'
  more ← has_more
  pid ← read_pid more
  expect_end
  pure (detach pid)

-- `_op` is not initialised where neither letter stands: `none`.
unfoldable pub read_op : Bool → Reader (Option Bool)
unfolding check_char
read_op true = pure (some true)
read_op false = do general ← check_char b'g'; pure (if general then some true else none)

unfoldable pub set_thread_request : Reader Request
unfolding expect_char check_char read_op read_hex_number expect_end
set_thread_request = do
  expect_char b'H'
  c ← check_char b'c'
  op ← read_op c
  thread_id ← read_hex_number 64
  expect_end
  pure (set_thread op thread_id)

-- `thread:` and an id, where the check for `;` succeeded.
unfoldable pub read_thread : {A : Type 0} → (ℕ → A) → A → Bool → Reader A
unfolding expect_string read_hex_number expect_char
read_thread given absent false = pure absent
read_thread given absent true = do
  expect_string (codes "thread:")
  thread_id ← read_hex_number 64
  expect_char b';'
  pure (given thread_id)

unfoldable pub general_registers_batch_read_request : Reader Request
unfolding expect_char check_char read_thread expect_end
general_registers_batch_read_request = do
  expect_char b'g'
  suffix ← check_char b';'
  thread_id ← read_thread (λ id. id) no_thread suffix
  expect_end
  pure (general_registers_batch_read thread_id)

unfoldable pub register_read_request : Reader Request
unfolding expect_char read_hex_number check_char read_thread expect_end
register_read_request = do
  expect_char b'p'
  register_id ← read_hex_number 16
  suffix ← check_char b';'
  thread_id ← read_thread (λ id. id) no_thread suffix
  expect_end
  pure (register_read register_id thread_id)

-- `_thread_id` is not initialised where no suffix stands: `none`.
unfoldable pub register_write_request : Reader Request
unfolding expect_char read_hex_number read_hex_number_respecting_endianness check_char read_thread
    expect_end
register_write_request = do
  expect_char b'P'
  register_id ← read_hex_number 16
  expect_char b'='
  value ← read_hex_number_respecting_endianness 8
  suffix ← check_char b';'
  thread_id ← read_thread (λ id. some id) none suffix
  expect_end
  pure (register_write register_id value thread_id)

-- The widths in bytes of the registers, in the order of `RegistersX86_64` and `RegistersX86_32`.
abbrev pub widths_64 : List ℕ
widths_64 =
    8 ∷ 8 ∷ 8 ∷ 8 ∷ 8 ∷ 8 ∷ 8 ∷ 8 ∷ 8 ∷ 8 ∷ 8 ∷ 8 ∷ 8 ∷ 8 ∷ 8 ∷ 8 ∷ 8 ∷ 8 ∷ 2 ∷ 2 ∷ 2 ∷ 2 ∷ 2 ∷ 8
    ∷ 8 ∷ 8 ∷ 8 ∷ []

abbrev pub widths_32 : List ℕ
widths_32 = 4 ∷ 4 ∷ 4 ∷ 4 ∷ 4 ∷ 4 ∷ 4 ∷ 4 ∷ 4 ∷ 4 ∷ 2 ∷ 2 ∷ 2 ∷ 2 ∷ 2 ∷ 2 ∷ 8 ∷ 8 ∷ 8 ∷ 8 ∷ []

unfoldable pub total_size : List ℕ → ℕ
total_size [] = 0
total_size (w ∷ ws) = w + total_size ws

abbrev with_value : ℕ → Option ℕ → List (ℕ × ℕ) → List (ℕ × ℕ)
with_value index none values = values
with_value index (some v) values = (index, v) ∷ values

-- `for_each_metadata` over the registers from `index` on.
unfoldable pub read_words : ℕ → List ℕ → Reader (List (ℕ × ℕ))
unfolding read_word_unsigned_opt
read_words index [] = pure []
read_words index (w ∷ ws) = do
  word ← read_word_unsigned_opt w
  values ← read_words (index + 1) ws
  pure (with_value index word values)

unfoldable pub read_all_words : Reader (List (ℕ × ℕ))
unfolding read_words total_size
read_all_words s =
    if length s / 2 == total_size widths_64
    then read_words 0 widths_64 s
    else if length s / 2 == total_size widths_32
    then read_words 0 widths_32 s
    else err parse_error

-- The class passes the header `g` to its base.
unfoldable pub general_registers_batch_write_request : Reader Request
unfolding expect_char read_all_words expect_end
general_registers_batch_write_request = do
  expect_char b'g'
  values ← read_all_words
  expect_end
  pure (general_registers_batch_write values)

unfoldable pub memory_read_request : Reader Request
unfolding expect_char read_hex_number expect_end
memory_read_request = do
  expect_char b'm'
  address ← read_hex_number 64
  expect_char b','
  size ← read_hex_number 64
  expect_end
  pure (memory_read address size)

unfoldable pub read_bytes : ℕ → Reader Bytes
unfolding read_byte
read_bytes zero = pure []
read_bytes (suc n) = do b ← read_byte; bs ← read_bytes n; pure (b ∷ bs)

-- `_data.reserve(_length)`. (A std::bad_alloc below this bound is left out.)
unfoldable pub reserve : ℕ → Reader (Unit {0})
reserve n = if ltb n (2 ^ 63) then pure tt else fail length_error

unfoldable pub memory_write_request : Reader Request
unfolding expect_char read_hex_number reserve read_bytes expect_end
memory_write_request = do
  expect_char b'M'
  address ← read_hex_number 64
  expect_char b','
  size ← read_hex_number 64
  expect_char b':'
  reserve size
  bytes ← read_bytes size
  expect_end
  pure (memory_write address size bytes)

unfoldable pub query_watchpoint_support_info_request : Reader Request
unfolding expect_string check_char expect_end
query_watchpoint_support_info_request = do
  expect_string (codes "qWatchpointSupportInfo")
  colon ← check_char b':'
  expect_end
  pure query_watchpoint_support_info

-- Texts by their length.
abbrev Shorter : Bytes → Bytes → Type 0
Shorter s t = length s < length t

Acc-Shorter : (n : ℕ) (s : Bytes) → length s < n → Acc Shorter s
Acc-Shorter zero s h = absurd (omega arith)
Acc-Shorter (suc n) s h = Acc.intro s (λ t p. Acc-Shorter n t (omega (arith, h, p)))

-- One round of the loop, and the rounds `more` behind it, which have less text left.
unfoldable pub read_feature :
    (c : ℕ) (cs : Bytes)
    → ((t : Bytes) → Shorter t (c ∷ cs) → Result RequestError (List Bytes × Bytes))
    → (r : Result RequestError (Bytes × Bytes)) → read_until_char_or_end b';' (c ∷ cs) ≡ r
    → Result RequestError (List Bytes × Bytes)
read_feature c cs more (err e) taken = err e
read_feature c cs more (ok (feature, rest)) taken =
    elim (more rest (let h = read_until_char_or_end-shorter b';' (c ∷ cs) taken in omega arith)) [
      | ok (features, s) ↦ ok (feature ∷ features, s)
      | err e ↦ err e
    ]

-- `while (has_more())`: it ends because each round takes a character at least.
unfoldable pub read_features :
    (s : Bytes) → Acc Shorter s → Result RequestError (List Bytes × Bytes)
unfolding read_feature read_until_char_or_end
read_features [] w = ok ([], [])
read_features (c ∷ cs) (Acc.intro _ shorter) =
    read_feature c cs (λ t p. read_features t (shorter t p)) (read_until_char_or_end b';' (c ∷ cs))
      refl

unfoldable pub query_supported_request : Reader Request
unfolding expect_string expect_char read_features Acc-Shorter expect_end
query_supported_request = do
  expect_string (codes "qSupported")
  expect_char b':'
  features ← λ s. read_features s (Acc-Shorter (length s + 1) s (omega arith))
  expect_end
  pure (query_supported features)

unfoldable pub query_register_info_request : Reader Request
unfolding expect_string read_hex_number expect_end
query_register_info_request = do
  expect_string (codes "qRegisterInfo")
  register_id ← read_hex_number 16
  expect_end
  pure (query_register_info register_id)

unfoldable pub query_memory_region_info_request : Reader Request
unfolding expect_string expect_char read_hex_number expect_end
query_memory_region_info_request = do
  expect_string (codes "qMemoryRegionInfo")
  expect_char b':'
  address ← read_hex_number 64
  expect_end
  pure (query_memory_region_info address)
