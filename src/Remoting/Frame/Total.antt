-- ===== src/Remoting/Frame/Total.antt =====
-- The ends of `decodeCommand`, on any input.
use go_rocketmq_dashboard.Base.{
  ℕ, ◌+◌, ◌/◌, ◌%◌, ◌^◌, ◌≤◌, ◌≢◌, refl, Bool-cases, inl, inr, ltb, ◌==◌, nat_eq, [], ◌∷◌, take,
  drop, length, Option, none, some, Option-cases, ◌-◌, arith,
}
use go_rocketmq_dashboard.Remoting.Frame.Header.{
  Bytes, RemotingCommand, HeaderResult, header_command, header_refused, header_panics,
  decode_rocketmq_remoting_header,
}
use go_rocketmq_dashboard.Remoting.Frame.Safety.{decode_rocketmq_remoting_header_total}
use go_rocketmq_dashboard.Remoting.Frame.{
  slice_between, payload_body, frame_panics, take_uint32, read_full, with_body, json_header,
  decode_header, decode_payload, decode_frame, decode_sized, decode_command,
}
use go_rocketmq_dashboard.Remoting.Frame.Slices.{
  slice_between_total, payload_body_total, length-take,
}

with_body_total :
    (h : HeaderResult) (body : Option Bytes) (rest : Bytes)
    → h ≢ header_panics
    → body ≢ none
    → with_body h body rest ≢ frame_panics
unfolding with_body
with_body_total header_refused body rest n m e = cc
with_body_total header_panics body rest n m e = n refl
with_body_total (header_command command) none rest n m e = m refl
with_body_total (header_command command) (some []) rest n m e = cc
with_body_total (header_command command) (some (b ∷ body)) rest n m e = cc

json_header_total : (c : Option RemotingCommand) → json_header c ≢ header_panics
json_header_total none e = cc
json_header_total (some c) e = cc

four_bytes : (payload : Bytes) → 4 ≤ length payload → take_uint32 payload ≢ none
unfolding take_uint32
four_bytes (a ∷ b ∷ c ∷ d ∷ rest) h e = cc
four_bytes [] h e = omega arith
four_bytes (a ∷ []) h e = omega arith
four_bytes (a ∷ b ∷ []) h e = omega arith
four_bytes (a ∷ b ∷ c ∷ []) h e = omega arith

module _ (unmarshal : Bytes → Option RemotingCommand) where
  decode_header_total :
      (protocol : ℕ) (header : Bytes) (body : Option Bytes) (rest : Bytes)
      → body ≢ none
      → decode_header unmarshal protocol header body rest ≢ frame_panics
  unfolding decode_header
  decode_header_total protocol header body rest m = elim (Bool-cases (protocol == 0)) [
    | inl json ↦ rw json (
        with_body_total (json_header (unmarshal header)) body rest
          (json_header_total (unmarshal header)) m)
    | inr other ↦ elim (Bool-cases (protocol == 1)) [
      | inl binary ↦
          rw (other, binary)
            (with_body_total (decode_rocketmq_remoting_header header) body rest
              (decode_rocketmq_remoting_header_total header) m)
      | inr unknown ↦ rw (other, unknown) (λ e. cc)
    ]
  ]

  decode_payload_total :
      (marked : Option (ℕ × Bytes)) (payload rest : Bytes)
      → marked ≢ none
      → 4 ≤ length payload
      → decode_payload unmarshal marked payload rest ≢ frame_panics
  unfolding decode_payload
  decode_payload_total none payload rest h l = λ e. h refl
  decode_payload_total (some (mark, after_mark)) payload rest h l =
      let size = mark % 2 ^ 24 in
      elim (Bool-cases (ltb (length payload - 4) size)) [
        | inl short ↦ rw short (λ e. cc)
        | inr long ↦
            let inside : 4 + size ≤ length payload = ground arith in
            elim (Option-cases (slice_between 4 (4 + size) payload)) [
              | inl out ↦ absurd (slice_between_total 4 (4 + size) payload (omega arith) inside out)
              | inr (header, sliced) ↦
                  rw (long, sliced)
                    (decode_header_total (mark / 2 ^ 24) header (payload_body (4 + size) payload)
                      rest (payload_body_total (4 + size) payload))
            ]
      ]

  decode_frame_total :
      (size : ℕ) (input : Bytes)
      → 4 ≤ size
      → decode_frame unmarshal (read_full size input) ≢ frame_panics
  unfolding read_full decode_frame
  decode_frame_total size input h = elim (Bool-cases (ltb (length input) size)) [
    | inl short ↦ rw short (λ e. cc)
    | inr long ↦
        let four : 4 ≤ length (take size input) = rw (length-take size input (ground arith)) h in
        rw long (
          decode_payload_total (take_uint32 (take size input)) (take size input) (drop size input)
            (four_bytes (take size input) four) four)
  ]

  decode_sized_total : (sized : Option (ℕ × Bytes)) → decode_sized unmarshal sized ≢ frame_panics
  unfolding decode_sized
  decode_sized_total none = λ e. cc
  decode_sized_total (some (size, input)) = elim (Bool-cases (ltb size 4)) [
    | inl small ↦ rw small (λ e. cc)
    | inr large ↦ rw large (decode_frame_total size input (ground arith))
  ]

  -- Every input is decoded to a command and a rest, or refused with an error: no slice is out of
  -- range, and the loop over the fields of a binary header ends.
  pub decode_command_total : (input : Bytes) → decode_command unmarshal input ≢ frame_panics
  unfolding decode_command
  decode_command_total input = decode_sized_total (take_uint32 input)
