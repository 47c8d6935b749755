-- ===== src/Gdb/Packet.antt =====
-- include/GDBServer/GDBPacket.hpp and src/GDBServer/GDBPacket.cpp. A `char` is its byte.
use xendbg.Prelude.{ℕ, ◌+◌, ◌/◌, ◌%◌, Bool, true, false, ◌&&◌, [], ◌∷◌, ◌++◌, ◌==◌, Bytes}
use xendbg.Text.{hex_digit}

pub record GdbPacket : Type 0 where
  pub contents : Bytes
  pub checksum : ℕ  -- uint8_t

-- `std::accumulate` with a `uint8_t` accumulator, which wraps at each addition.
unfoldable pub sum_from : ℕ → Bytes → ℕ
sum_from acc [] = acc
sum_from acc (c ∷ cs) = sum_from ((acc + c) % 256) cs

unfoldable pub calculate_checksum : Bytes → ℕ
unfolding sum_from
calculate_checksum contents = sum_from 0 contents

-- The constructor that computes the checksum.
unfoldable pub make_packet : Bytes → GdbPacket
unfolding calculate_checksum
make_packet contents = record { contents = contents; checksum = calculate_checksum contents }

-- The two digits that `std::hex << std::setfill('0') << std::setw(2)` writes for a `uint8_t`.
unfoldable pub hex_byte : ℕ → Bytes
unfolding hex_digit
hex_byte n = hex_digit (n / 16) ∷ hex_digit (n % 16) ∷ []

unfoldable pub to_string : GdbPacket → Bytes
unfolding hex_byte
to_string p = b'$' ∷ (p.contents ++ (b'#' ∷ hex_byte p.checksum))

unfoldable pub is_checksum_valid : GdbPacket → Bool
unfolding calculate_checksum
is_checksum_valid p = p.checksum == calculate_checksum p.contents

-- `s.size() <= _contents.size() && std::equal(...)`.
unfoldable pub starts_with : Bytes → Bytes → Bool
starts_with [] contents = true
starts_with (c ∷ s) [] = false
starts_with (c ∷ s) (d ∷ contents) = c == d && starts_with s contents
