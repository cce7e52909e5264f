-- ===== src/Stream.antt =====
-- `__unpack_container_stream` of cincan/frontend.py: frames of the container's output, read from a
-- socket that delivers its bytes in pieces.
pub mod Frames
use cincan_command.Prelude.{
  ℕ, zero, suc, ◌+◌, ◌-◌, ◌*◌, ◌/◌, ◌%◌, ◌^◌, length, take, drop, ltb, leb, Bool, true, false, List,
  [], ◌∷◌, ◌++◌, if◌then◌else◌,
}

abbrev pub Bytes : Type 0
Bytes = List ℕ

-- What has still to arrive, in the pieces in which it does. No piece left is the end of the stream.
abbrev pub Socket : Type 0
Socket = List Bytes

-- `c_socket.read(n)`: at most `n` bytes of the first piece
unfoldable pub read : Socket → ℕ → Bytes × Socket
read [] n = ([], [])
read (p ∷ ps) n = if leb (length p) n then (p, ps) else (take n p, drop n p ∷ ps)

pub data Read : Type 0 where
  full : Bytes → Socket → Read
  eof : Socket → Read
  out_of_fuel : Read

-- What a round of the loop does with the bytes that it has got.
extend : Bytes → (Bytes → Read) → Socket → Read
extend [] next s = eof s
extend (b ∷ r) next s = next (b ∷ r)

-- `while len(buf) < n`, with a round for each byte as fuel
unfoldable pub read_until : ℕ → ℕ → Bytes → Socket → Read
unfolding extend
read_until zero n buf s = if ltb (length buf) n then out_of_fuel else full buf s
read_until (suc fuel) n buf s =
    let (r, s') = read s (n - length buf) in
    let more = extend r (λ r. read_until fuel n (buf ++ r) s') s' in
    if ltb (length buf) n then more else full buf s

-- `struct.unpack('>Q', buf)[0]`
unfoldable pub big_endian : ℕ → Bytes → ℕ
big_endian n [] = n
big_endian n (b ∷ bs) = big_endian (n * 256 + b) bs

pub data Unpacked : Type 0 where
  frame : ℕ → Bytes → Socket → Unpacked
  -- `return 0, bytes([])`
  end_of_stream : Socket → Unpacked
  -- `sys.exit`
  exits : Unpacked
  stuck : Unpacked

abbrev pub buffer_size : ℕ
buffer_size = 1024 * 1024

tty_read : Bytes × Socket → Unpacked
tty_read ([], s) = end_of_stream s
tty_read (b ∷ r, s) = frame 1 (b ∷ r) s

body : ℕ → Read → Unpacked
body s_type (full buf s) = frame s_type buf s
body s_type (eof s) = exits
body s_type out_of_fuel = stuck

header : Read → Unpacked
header (full buf s) =
    let s_len = big_endian 0 buf in
    body (s_len / 2 ^ 56) (read_until (s_len % 2 ^ 56) (s_len % 2 ^ 56) [] s)
header (eof s) = end_of_stream s
header out_of_fuel = stuck

-- `__unpack_container_stream`
unfoldable pub unpack_container_stream : Bool → Socket → Unpacked
unfolding tty_read body header
unpack_container_stream true s = tty_read (read s buffer_size)
unpack_container_stream false s = header (read_until 8 8 [] s)
