-- ===== src/Remoting/Frame/RoundTrip.antt =====
-- `decodeCommand` on what `encodeCommand` writes.
use go_rocketmq_dashboard.Base.{
  ℕ, ◌+◌, ◌*◌, ◌/◌, ◌%◌, ◌^◌, ◌<◌, ◌≡◌, ◌∙◌, refl, sym, ap, nat_eq, [], ◌∷◌, ◌++◌, append_assoc,
  length, length-append, Option, some, ◌-◌, arith,
}
use go_rocketmq_dashboard.Remoting.Frame.Header.{Bytes, RemotingCommand, header_command}
use go_rocketmq_dashboard.Remoting.Frame.{
  put_uint32, slice_between, payload_body, encode_command, command_read, take_uint32, read_full,
  with_body, decode_header, decode_payload, decode_frame, decode_sized, decode_command,
}
use go_rocketmq_dashboard.Remoting.Frame.Slices.{
  not_less, take_prefix, drop_prefix, payload_body_lem, slice_middle,
}

take-put_uint32 :
    (n : ℕ) (rest : Bytes) → n < 2 ^ 32 → take_uint32 (put_uint32 n ++ rest) ≡ some (n, rest)
unfolding take_uint32 put_uint32
take-put_uint32 n rest h =
    let value : n / 2 ^ 24 % 256 * 2 ^ 24
          + n / 2 ^ 16 % 256 * 2 ^ 16
          + n / 2 ^ 8 % 256 * 2 ^ 8
          + n % 256
        ≡ n =
      omega arith in
    ap (λ v. some (v, rest)) value

read_full-append : (n : ℕ) (xs ys : Bytes) → n ≡ length xs → read_full n (xs ++ ys) ≡ some (xs, ys)
unfolding read_full
read_full-append n xs ys e = rw e (
    rw
      (
        not_less (length (xs ++ ys)) (length xs) (omega (arith, length-append xs ys)),
        take_prefix xs ys,
        drop_prefix xs ys,
      )
      refl)

with_body_lem :
    (c : RemotingCommand) (body rest : Bytes)
    → with_body (header_command (record c { body = [] })) (some body) rest
      ≡ command_read (record c { body = body }) rest
unfolding with_body
with_body_lem c [] rest = refl
with_body_lem c (b ∷ body) rest = refl

length-put_uint32 : (n : ℕ) → length (put_uint32 n) ≡ 4
unfolding put_uint32
length-put_uint32 n = refl

marked_body :
    (mark header body : Bytes)
    → length mark ≡ 4
    → payload_body (4 + length header) (mark ++ (header ++ body)) ≡ some body
marked_body mark header body four =
    let size : 4 + length header ≡ length (mark ++ header) =
      omega (arith, four, length-append mark header) in
    rw (size, ← append_assoc mark header body) (payload_body_lem (mark ++ header) body)

module _ (unmarshal : Bytes → Option RemotingCommand) where
  decode_header_lem :
      (protocol : ℕ) (command : RemotingCommand) (header body rest : Bytes)
      → protocol ≡ 0
      → unmarshal header ≡ some (record command { body = [] })
      → decode_header unmarshal protocol header (some body) rest
        ≡ command_read (record command { body = body }) rest
  unfolding decode_header nat_eq with_body
  decode_header_lem protocol command header body rest e u =
      rw e (rw (u, decode_header) (with_body_lem command body rest))

  payload_lem :
      (command : RemotingCommand) (header rest : Bytes)
      → unmarshal header ≡ some (record command { body = [] })
      → length header < 2 ^ 24
      → decode_payload unmarshal
          (some (length header, header ++ command.body))
          (put_uint32 (length header) ++ (header ++ command.body))
          rest
        ≡ command_read command rest
  unfolding decode_payload
  payload_lem command header rest u short =
      let small : length header % 2 ^ 24 ≡ length header = omega arith in
      let mark = put_uint32 (length header) in
      let payload = mark ++ (header ++ command.body) in
      let four : length mark ≡ 4 = length-put_uint32 (length header) in
      let total : length payload ≡ 4 + length header + length command.body = omega (
        arith,
        four,
        length-append mark (header ++ command.body),
        length-append header command.body,
      ) in
      let sliced : slice_between 4 (4 + length header) payload ≡ some header =
        rw (← four) (slice_middle mark header command.body) in
      let read : payload_body (4 + length header % 2 ^ 24) payload ≡ some command.body =
        rw small (marked_body mark header command.body four) in
      rw (small, decode_payload)
        (rw (not_less (length payload - 4) (length header) (omega (arith, total)), sliced, read)
          (decode_header_lem (length header / 2 ^ 24) command header command.body rest (omega arith)
            u))

  frame_lem :
      (size : ℕ) (command : RemotingCommand) (header rest : Bytes)
      → unmarshal header ≡ some (record command { body = [] })
      → length header < 2 ^ 24
      → size ≡ 4 + length header + length command.body
      → decode_sized unmarshal
          (some (size, (put_uint32 (length header) ++ (header ++ command.body)) ++ rest))
        ≡ command_read command rest
  unfolding decode_sized decode_frame
  frame_lem size command header rest u short e =
      let payload = put_uint32 (length header) ++ (header ++ command.body) in
      let total : size ≡ length payload = omega (
        arith,
        e,
        length-append (put_uint32 (length header)) (header ++ command.body),
        length-append header command.body,
        length-put_uint32 (length header),
      ) in
      rw
        (
          not_less size 4 (omega arith),
          read_full-append size payload rest total,
          take-put_uint32 (length header) (header ++ command.body) (omega arith),
        )
        (payload_lem command header rest u short)

-- A frame that is encoded is decoded to the same command, and what follows it is left, where the
-- JSON decoder reads the header back without the body, the header is shorter than 2^24 bytes and
-- the frame than 2^32.
pub decode-encode_command :
    (marshal : RemotingCommand → Option Bytes) (unmarshal : Bytes → Option RemotingCommand)
    (command : RemotingCommand) (header frame rest : Bytes)
    → marshal command ≡ some header
    → unmarshal header ≡ some (record command { body = [] })
    → length header < 2 ^ 24
    → 4 + length header + length command.body < 2 ^ 32
    → encode_command marshal command ≡ some frame
    → decode_command unmarshal (frame ++ rest) ≡ command_read command rest
unfolding encode_command decode_command
decode-encode_command marshal unmarshal command header frame rest m u short fits e =
    let size = 4 + length header + length command.body in
    let payload = put_uint32 (length header) ++ (header ++ command.body) in
    let written : some (put_uint32 size ++ payload) ≡ some frame =
      sym (rw (m, encode_command) refl) ∙ e in
    let same : put_uint32 size ++ payload ≡ frame = cc in
    rw (← same) (
      rw (append_assoc (put_uint32 size) payload rest, take-put_uint32 size (payload ++ rest) fits)
        (frame_lem unmarshal size command header rest u short refl))
