-- ===== src/Gdb/Response.antt =====
-- The responses (include/GDBServer/GDBResponse, src/GDBServer/GDBResponse): one constructor for each
-- class, and the text that its `to_string` writes.
use xendbg.Prelude.{
  ℕ, zero, suc, ◌-◌, ◌*◌, ◌/◌, ◌%◌, Bool, List, [], ◌∷◌, ◌++◌, ◌==◌, if◌then◌else◌, Bytes, length,
  replicate,
}
use xendbg.Text.{codes, print_number}
use xendbg.Gdb.Packet.{hex_byte}
use xendbg.Gdb.Request.{no_thread}

pub data Response : Type 0 where
  ok_response not_supported : Response
  error_response : ℕ → Bytes → Response
  stop_reason_signal : ℕ → ℕ → List ℕ → Bytes → Bytes → Response
  terminated : ℕ → Response
  memory_read_response : Bytes → Response
  register_read_response : ℕ → Response
  general_registers_batch_read_response : List (ℕ × ℕ) → Response  -- widths in bytes, values
  query_watchpoint_support_info_response : ℕ → Response
  query_supported_response : List Bytes → Response
  query_current_thread_id_response : ℕ → Response
  query_thread_info_response : ℕ → List ℕ → Response  -- not empty: the constructor throws
  query_thread_info_end_response : Response
  query_host_info_response : ℕ → Response
  query_process_info_response : ℕ → Response
  query_memory_region_info_response : ℕ → ℕ → Bool → Bool → Bool → Bytes → Response
  query_memory_region_info_error_response : Bytes → Response
  query_register_info_response : Bytes → ℕ → ℕ → ℕ → Response

-- `write_bytes` for a type of `n` bytes, on a little-endian host.
unfoldable pub write_bytes : ℕ → ℕ → Bytes
unfolding hex_byte
write_bytes zero value = []
write_bytes (suc n) value = hex_byte (value % 256) ++ write_bytes n (value / 256)

unfoldable pub hexify : Bytes → Bytes
unfolding hex_byte
hexify [] = []
hexify (c ∷ s) = hex_byte c ++ hexify s

unfoldable pub add_list_entry : Bytes → Bytes
add_list_entry value = value ++ codes ","

unfoldable pub add_map_entry : Bytes → Bytes → Bytes
add_map_entry key value = key ++ (b':' ∷ (value ++ codes ";"))

-- `ss << std::setw(2*sizeof(Value)) << reg`, filled with `0`.
unfoldable pub write_register : ℕ × ℕ → Bytes
unfolding print_number
write_register (width, value) =
    let digits = print_number 16 value in replicate (2 * width - length digits) b'0' ++ digits

unfoldable pub write_registers : List (ℕ × ℕ) → Bytes
unfolding write_register
write_registers [] = []
write_registers (r ∷ rs) = write_register r ++ write_registers rs

unfoldable pub separated : ℕ → List Bytes → Bytes
separated mark [] = []
separated mark (s ∷ ss) = mark ∷ (s ++ separated mark ss)

unfoldable pub supported_text : List Bytes → Bytes
unfolding separated
supported_text [] = []
supported_text (feature ∷ features) = feature ++ separated b';' features

unfoldable pub hex_texts : List ℕ → List Bytes
unfolding print_number
hex_texts [] = []
hex_texts (n ∷ ns) = print_number 16 n ∷ hex_texts ns

unfoldable pub list_entries : List Bytes → Bytes
unfolding add_list_entry
list_entries [] = []
list_entries (s ∷ ss) = add_list_entry s ++ list_entries ss

-- The thread ids of a stop reply: one alone without a comma, several with one behind each.
unfoldable pub threads_text : List ℕ → Bytes
unfolding print_number list_entries hex_texts
threads_text (id ∷ []) = print_number 16 id
threads_text ids = list_entries (hex_texts ids)

unfoldable pub reason_text : Bytes → Bytes → Bytes
unfolding add_map_entry
reason_text [] value = []
reason_text (c ∷ key) value = add_map_entry (c ∷ key) value

unfoldable pub message_text : Bytes → Bytes
message_text [] = []
message_text (c ∷ message) = b';' ∷ c ∷ message

unfoldable pub permissions : Bool → Bool → Bool → Bytes
permissions read write execute =
    (if read then codes "r" else [])
    ++ ((if write then codes "w" else []) ++ (if execute then codes "x" else []))

-- The entry of a region with a name holds the start address.
unfoldable pub name_text : Bytes → ℕ → Bytes
unfolding add_map_entry print_number
name_text [] start = []
name_text (c ∷ name) start = add_map_entry (codes "name") (print_number 16 start)

unfoldable pub gcc_text : ℕ → Bytes
unfolding add_map_entry print_number
gcc_text id =
    if id == no_thread
    then []
    else add_map_entry (codes "ehframe") (print_number 10 id)
      ++ add_map_entry (codes "dwarf") (print_number 10 id)

unfoldable pub response_text : Response → Bytes
unfolding hex_byte hexify write_bytes write_registers print_number supported_text separated
    hex_texts add_map_entry threads_text reason_text message_text permissions name_text gcc_text
response_text ok_response = codes "OK"
response_text not_supported = []
response_text (error_response code message) = b'E' ∷ (hex_byte code ++ message_text message)
response_text (stop_reason_signal signal thread_id thread_ids key value) =
    b'T'
    ∷ (hex_byte signal
        ++ (reason_text key value
            ++ (codes "thread:"
                ++ (print_number 16 thread_id
                    ++ (codes ";threads:"
                        ++ (threads_text thread_ids ++ codes ";reason:signal;"))))))
response_text (terminated signal) = b'X' ∷ hex_byte signal
response_text (memory_read_response bytes) = hexify bytes
response_text (register_read_response value) = write_bytes 8 value
response_text (general_registers_batch_read_response registers) = write_registers registers
response_text (query_watchpoint_support_info_response num) =
    codes "num:" ++ (print_number 10 num ++ codes ";")
response_text (query_supported_response features) = supported_text features
response_text (query_current_thread_id_response id) =
    codes "QC" ++ (if id == no_thread then codes "-1" else print_number 16 id)
response_text (query_thread_info_response id ids) =
    b'm' ∷ (print_number 16 id ++ separated b',' (hex_texts ids))
response_text query_thread_info_end_response = codes "l"
response_text (query_host_info_response word_size) =
    codes
      "triple:7838365f36342d70632d6c696e75782d676e75;ptrsize:8;endian:little;hostname:7468696e6b706164;"
    ++ (add_map_entry (codes "endian") (codes "little")
        ++ add_map_entry (codes "ptrsize") (print_number 10 word_size))
response_text (query_process_info_response pid) =
    add_map_entry (codes "pid") (print_number 10 pid)
    ++ (add_map_entry (codes "ptrsize") (codes "8")
        ++ add_map_entry (codes "endian") (codes "little"))
response_text (query_memory_region_info_response start size read write execute name) =
    add_map_entry (codes "start") (print_number 16 start)
    ++ (add_map_entry (codes "size") (print_number 16 size)
        ++ (add_map_entry (codes "permissions") (permissions read write execute)
            ++ name_text name start))
response_text (query_memory_region_info_error_response error) = codes "error:" ++ error
response_text (query_register_info_response name width offset gcc_register_id) =
    add_map_entry (codes "name") name
    ++ (add_map_entry (codes "bitsize") (print_number 10 width)
        ++ (add_map_entry (codes "offset") (print_number 10 offset)
            ++ (codes "encoding:uint;format:hex;set:General Purpose Registers;"
                ++ gcc_text gcc_register_id)))
