-- ===== src/Remoting/Frame.antt =====
-- internal/rocketmq/goadmin/remoting_client.go: the frames of the remoting protocol. A byte is a
-- number below 256, and a string that is read from bytes is the list of its bytes. The JSON codec of
-- the headers is a parameter.
pub mod Header
pub mod Safety
pub mod Slices
pub mod RoundTrip
pub mod Total
use go_rocketmq_dashboard.Base.{
  ℕ, zero, suc, ◌+◌, ◌-◌, ◌*◌, ◌/◌, ◌%◌, ◌^◌, Bool, true, false, ◌||◌, if◌then◌else◌, ltb, ◌==◌,
  nat_eq, List, [], ◌∷◌, ◌++◌, take, drop, length, Option, none, some,
}
use go_rocketmq_dashboard.Base.Int.{ℤ, pos}
use go_rocketmq_dashboard.Remoting.Frame.Header.{
  Bytes, RemotingCommand, HeaderResult, header_command, header_refused, header_panics,
  decode_rocketmq_remoting_header,
}

-- `binary.BigEndian.PutUint32` of `uint32(n)`.
unfoldable pub put_uint32 : ℕ → Bytes
put_uint32 n = n / 2 ^ 24 % 256 ∷ n / 2 ^ 16 % 256 ∷ n / 2 ^ 8 % 256 ∷ n % 256 ∷ []

-- `none` is an error of the JSON encoder.
unfoldable pub encode_command : (RemotingCommand → Option Bytes) → RemotingCommand → Option Bytes
encode_command marshal command = elim (marshal command) [
  | none ↦ none
  | some header ↦ some (
      put_uint32 (4 + length header + length command.body)
      ++ (put_uint32 (length header) ++ (header ++ command.body)))
]

pub data FrameError : Type 0 where
  unexpected_end : FrameError
  bad_frame_length : ℕ → FrameError
  bad_header_length : ℕ → FrameError
  bad_header : FrameError
  unsupported_type : ℕ → FrameError

-- A command and what is left of the input, an error, or a panic.
pub data FrameResult : Type 0 where
  command_read : RemotingCommand → Bytes → FrameResult
  frame_refused : FrameError → FrameResult
  frame_panics : FrameResult

-- `binary.BigEndian.Uint32` of the first four bytes, and the rest; `none` when there are fewer.
unfoldable pub take_uint32 : Bytes → Option (ℕ × Bytes)
take_uint32 (a ∷ b ∷ c ∷ d ∷ rest) = some (a * 2 ^ 24 + b * 2 ^ 16 + c * 2 ^ 8 + d, rest)
take_uint32 _ = none

-- `io.ReadFull` of `n` bytes.
unfoldable pub read_full : ℕ → Bytes → Option (Bytes × Bytes)
read_full n input = if ltb (length input) n then none else some (take n input, drop n input)

-- `bytes[low:high]` of a slice with no spare capacity; `none` is a panic.
unfoldable pub slice_between : ℕ → ℕ → Bytes → Option Bytes
slice_between low high bytes =
    if ltb high low || ltb (length bytes) high
    then none
    else some (take (high - low) (drop low bytes))

-- The body behind the header, which ends at `header_end`; it is sliced when it is not empty.
unfoldable pub payload_body : ℕ → Bytes → Option Bytes
unfolding slice_between
payload_body header_end payload =
    if ltb header_end (length payload)
    then slice_between header_end (length payload) payload
    else some []

unfoldable pub with_body : HeaderResult → Option Bytes → Bytes → FrameResult
with_body header_refused body rest = frame_refused bad_header
with_body header_panics body rest = frame_panics
with_body (header_command command) none rest = frame_panics
with_body (header_command command) (some []) rest = command_read command rest
with_body (header_command command) (some (b ∷ body)) rest =
    command_read (record command { body = b ∷ body }) rest

abbrev pub json_header : Option RemotingCommand → HeaderResult
json_header none = header_refused
json_header (some command) = header_command command

-- `unmarshal` is the JSON decoder, on a command with no fields set.
module _ (unmarshal : Bytes → Option RemotingCommand) where
  unfoldable pub decode_header : ℕ → Bytes → Option Bytes → Bytes → FrameResult
  decode_header protocol header body rest =
      if protocol == 0
      then with_body (json_header (unmarshal header)) body rest
      else if protocol == 1
      then with_body (decode_rocketmq_remoting_header header) body rest
      else frame_refused (unsupported_type protocol)

  -- `payload` with the four bytes of its mark, which are read out of range when there are fewer.
  unfoldable pub decode_payload : Option (ℕ × Bytes) → Bytes → Bytes → FrameResult
  unfolding slice_between payload_body
  decode_payload none payload rest = frame_panics
  decode_payload (some (mark, after_mark)) payload rest =
      let header_length = mark % 2 ^ 24 in
      if ltb (length payload - 4) header_length
      then frame_refused (bad_header_length header_length)
      else elim (slice_between 4 (4 + header_length) payload) [
        | none ↦ frame_panics
        | some header ↦
            decode_header (mark / 2 ^ 24) header (payload_body (4 + header_length) payload) rest
      ]

  unfoldable pub decode_frame : Option (Bytes × Bytes) → FrameResult
  decode_frame none = frame_refused unexpected_end
  decode_frame (some (payload, rest)) = decode_payload (take_uint32 payload) payload rest

  unfoldable pub decode_sized : Option (ℕ × Bytes) → FrameResult
  decode_sized none = frame_refused unexpected_end
  decode_sized (some (size, input)) =
      if ltb size 4
      then frame_refused (bad_frame_length size)
      else decode_frame (read_full size input)

  unfoldable pub decode_command : Bytes → FrameResult
  decode_command input = decode_sized (take_uint32 input)
