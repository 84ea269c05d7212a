-- ===== src/Transport/Frame.antt =====
-- How a packet is written to the output and read from the input of a connection. The buffers of
-- messages (rwm_*) are lists of bytes.
use Prim.Native.Nat.{bit_or}
use mtprotor.Base.{
  ℕ, ◌+◌, ◌-◌, ◌*◌, ◌/◌, ◌%◌, ◌^◌, Bool, not, ◌&&◌, ◌||◌, Option, none, some, List, [], ◌∷◌, ◌++◌,
  ltb, leb, ◌==◌, if◌then◌else◌, length, take, drop,
}

-- The bits RPC_F_COMPACT, RPC_F_MEDIUM and RPC_F_PAD of the flags of a connection.
pub record Mode : Type 0 where
  pub compact : Bool
  pub medium : Bool
  pub pad : Bool

-- The bytes of a 32-bit number, lowest first.
unfoldable pub le32 : ℕ → List ℕ
le32 n = n % 256 ∷ n / 256 % 256 ∷ n / 65536 % 256 ∷ n / 16777216 % 256 ∷ []

-- rwm_fetch_lookup (in, &n, 4), `none` where it yields fewer than 4 bytes.
unfoldable pub lookup32 : List ℕ → Option ℕ
lookup32 [] = none
lookup32 (a ∷ []) = none
lookup32 (a ∷ b ∷ []) = none
lookup32 (a ∷ b ∷ c ∷ []) = none
lookup32 (a ∷ b ∷ c ∷ d ∷ rest) = some (a + 256 * (b + 256 * (c + 256 * d)))

-- What the writer does: bytes appended to the output, the call of tcp_rpc_write_packet for a
-- connection of the full transport, or a failed assertion.
pub data Written : Type 0 where
  sent : List ℕ → Written
  full : List ℕ → Written
  write_aborted : Written

-- The length prefix and the message, for a message of `len` bytes.
unfoldable pub frame : Mode → ℕ → List ℕ → List ℕ
frame mode len raw =
    if mode.medium
    then le32 len ++ raw
    else if leb len (0x7e * 4)
    then len / 4 % 256 ∷ raw
    else le32 (bit_or (len * 2 ^ 6 % 2 ^ 32) 0x7f) ++ raw

-- From the length on.
unfoldable pub write_framed : Mode → List ℕ → Written
write_framed mode raw =
    if not (ltb (length raw) (2 ^ 26))
    then write_aborted
    else if not mode.pad && not (length raw % 4 == 0)
    then write_aborted
    else sent (frame mode (length raw) raw)

unfoldable pub fetch_flag : List ℕ → Written
fetch_flag [] = write_aborted
fetch_flag (flag ∷ raw) = if flag == 0xdd then sent raw else write_aborted

-- `fresh_tls` says that the connection imitates TLS and has not answered yet, `x` and `y` are the
-- two random numbers.
unfoldable pub write_packet_compact : Bool → Mode → ℕ → ℕ → List ℕ → Written
write_packet_compact fresh_tls mode x y raw =
    if length raw == 5
    then fetch_flag raw
    else if fresh_tls
    then sent raw
    else if not (mode.compact || mode.medium)
    then full raw
    else if mode.pad
    then write_framed mode (raw ++ take (y % 4) (le32 x))
    else write_framed mode raw

-- One turn of the reader: nothing there, the number of bytes that are missing, a failed connection, a
-- failed assertion, or a packet with its quick-acknowledgement flag and the input behind it.
pub data Read : Type 0 where
  idle : Read
  need : ℕ → Read
  fail_connection : Read
  read_aborted : Read
  packet : Bool → List ℕ → List ℕ → Read

-- The flag, the length of the packet and that of its prefix, from the first 4 bytes. `none` is an
-- overlong encoding.
unfoldable pub packet_length : Mode → ℕ → Option (Bool × ℕ × ℕ)
packet_length mode w =
    if mode.medium
    then some (w / 2 ^ 31 % 2 == 1, w % 2 ^ 31, 4)
    else compact_length (w / 128 % 2 == 1) (if w / 128 % 2 == 1 then w - 128 else w)
  where
    compact_length : Bool → ℕ → Option (Bool × ℕ × ℕ)
    compact_length quickack v =
        if v % 256 == 0x7f
        then if ltb (v / 256) 0x7f then none else some (quickack, v / 256 * 4, 4)
        else some (quickack, v % 128 * 4, 1)

-- `max_packet_len` is 0 where there is no limit.
unfoldable pub bad_length : Mode → ℕ → ℕ → Bool
bad_length mode max_packet_len n =
    n == 0
    || leb (2 ^ 30) n
    || not mode.pad && not (n % 4 == 0)
    || ltb max_packet_len n && ltb 0 max_packet_len

-- The message without its padding must have a packet type.
unfoldable pub deliver : Mode → Bool → List ℕ → List ℕ → Read
deliver mode quickack msg rest =
    let body = if mode.pad then take (length msg / 4 * 4) msg else msg in
    if ltb (length body) 4 then read_aborted else packet quickack body rest

unfoldable pub read_body : Mode → ℕ → Bool → ℕ → ℕ → List ℕ → Read
read_body mode max_packet_len quickack n prefix input =
    if bad_length mode max_packet_len n
    then fail_connection
    else if ltb (length input) (n + prefix)
    then need (n + prefix - length input)
    else deliver mode quickack (take n (drop prefix input)) (drop n (drop prefix input))

abbrev pub read_length : Mode → ℕ → List ℕ → Option (Bool × ℕ × ℕ) → Read
read_length mode max_packet_len input none = fail_connection
read_length mode max_packet_len input (some (quickack, n, prefix)) =
    read_body mode max_packet_len quickack n prefix input

-- (D->flags & RPC_F_MEDIUM) ? 4 : 1
abbrev pub min_len : Mode → ℕ
min_len mode = if mode.medium then 4 else 1

unfoldable pub read_packet : Mode → ℕ → List ℕ → Read
read_packet mode max_packet_len input =
    if length input == 0
    then idle
    else if ltb (length input) (min_len mode + 8)
    then need (min_len mode + 8 - length input)
    else elim (lookup32 input) [
      | none ↦ read_aborted
      | some w ↦ read_length mode max_packet_len input (packet_length mode w)
    ]
