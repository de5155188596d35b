-- ===== src/Remoting/Frame/Safety.antt =====
-- The reads of `decodeRocketMQRemotingHeader`, and its loop over the fields.
use go_rocketmq_dashboard.Base.{
  ℕ, zero, suc, ◌+◌, ◌-◌, ◌%◌, ◌^◌, ◌<◌, ◌≤◌, ◌≡◌, ◌≢◌, refl, Bool, true, false, Bool-cases, inl,
  inr, if◌then◌else◌, ltb, ◌==◌, nat_eq, text_eq, [], length, arith,
}
use go_rocketmq_dashboard.Base.Dict
use go_rocketmq_dashboard.Base.Dict.{Dict}
use go_rocketmq_dashboard.Base.Text.{Text}
use go_rocketmq_dashboard.Remoting.Frame.Header.{
  Bytes, RemotingCommand, RocketmqHeaderReader, Reading, got, refused, out_of_range, out_of_fuel,
  and_then, slice, read_unsigned, read_string_body, read_rocketmq_string, read_fields,
  read_rocketmq_ext_fields, at_boundary, read_header, header_panics, header_result,
  decode_rocketmq_remoting_header,
}

-- An error, or a value with the reader at `low` at least and still inside its `size` bytes.
abbrev Inside : {A : Type 0} → ℕ → ℕ → Reading A → Type 0
Inside size low (got a r) = (length r.bytes ≡ size) × (low ≤ r.cursor) × (r.cursor ≤ size)
Inside size low refused = Unit
Inside size low out_of_range = ⊥
Inside size low out_of_fuel = ⊥

and_then-Inside :
    {A B : Type 0} (size low low' : ℕ) (m : Reading A) (f : A → RocketmqHeaderReader → Reading B)
    → Inside size low m
    → ((a : A) (r : RocketmqHeaderReader)
        → length r.bytes ≡ size
        → low ≤ r.cursor
        → r.cursor ≤ size
        → Inside size low' (f a r))
    → Inside size low' (and_then m f)
and_then-Inside size low low' (got a r) f (e, h, l) next = next a r e h l
and_then-Inside size low low' refused f _ next = tt
and_then-Inside size low low' out_of_range f m next = m
and_then-Inside size low low' out_of_fuel f m next = m

within : (size cursor n : ℕ) → cursor ≤ size → n ≤ (size - cursor) % 2 ^ 32 → cursor + n ≤ size
within size cursor n l h = omega arith

not_less : (a b : ℕ) → b ≤ a → ltb a b ≡ false
not_less a b h = ground arith

weaken :
    {A : Type 0} (size low low' : ℕ) (m : Reading A)
    → low' ≤ low
    → Inside size low m
    → Inside size low' m
weaken size low low' (got a r) h (e, k, l) = (e, omega arith, l)
weaken size low low' refused h _ = tt
weaken size low low' out_of_range h m = m
weaken size low low' out_of_fuel h m = m

at_least : (short : Bool) (a b : ℕ) → a + (if short then 2 else 4) ≤ b → suc a ≤ b
at_least true a b h = omega arith
at_least false a b h = omega arith

module _ (size : ℕ) (r : RocketmqHeaderReader) (e : length r.bytes ≡ size)
    (l : r.cursor ≤ size) where
  slice-Inside :
      {A : Type 0} (n : ℕ) (f : Bytes → A)
      → r.cursor + n ≤ size
      → Inside size (r.cursor + n) (slice n f r)
  unfolding slice
  slice-Inside n f h =
      rw (not_less (length r.bytes) (r.cursor + n) (omega arith)) (e, omega arith, h)

  read_unsigned-Inside : (n : ℕ) → Inside size (r.cursor + n) (read_unsigned n r)
  unfolding read_unsigned
  read_unsigned-Inside n = elim (Bool-cases (ltb (length r.bytes) (r.cursor + n))) [
    | inl short ↦ rw (short, read_unsigned) tt
    | inr long ↦ rw (long, read_unsigned) (e, omega arith, ground arith)
  ]

  read_string_body-Inside : (n : ℕ) → Inside size r.cursor (read_string_body n r)
  unfolding read_string_body
  read_string_body-Inside n = elim (Bool-cases (n == 0)) [
    | inl empty ↦ rw (empty, read_string_body) (e, omega arith, l)
    | inr some_byte ↦ elim (Bool-cases (ltb ((length r.bytes - r.cursor) % 2 ^ 32) n)) [
      | inl long ↦ rw (some_byte, long, read_string_body) tt
      | inr fits ↦
          let inside : r.cursor + n ≤ size = within size r.cursor n l (rw (← e) (ground arith)) in
          rw (some_byte, fits, read_string_body)
            (weaken size (r.cursor + n) r.cursor (slice n (λ bytes. bytes) r) (omega arith)
              (slice-Inside n (λ bytes. bytes) inside))
    ]
  ]

module _ (size : ℕ) where
  read_rocketmq_string-Inside :
      (short : Bool) (r : RocketmqHeaderReader)
      → length r.bytes ≡ size
      → r.cursor ≤ size
      → Inside size (suc r.cursor) (read_rocketmq_string short r)
  unfolding read_rocketmq_string
  read_rocketmq_string-Inside short r e l =
      let width : ℕ = if short then 2 else 4 in
      and_then-Inside size (r.cursor + width) (suc r.cursor) (read_unsigned width r)
        read_string_body (read_unsigned-Inside size r e l width)
        (λ n r' e' h' l'.
          weaken size r'.cursor (suc r.cursor) (read_string_body n r')
            (at_least short r.cursor r'.cursor h') (read_string_body-Inside size r' e' l' n))

  read_fields-Inside :
      (fuel end_at : ℕ) (fields : Dict Text Text) (r : RocketmqHeaderReader)
      → length r.bytes ≡ size
      → r.cursor ≤ size
      → 0 < fuel
      → end_at < r.cursor + fuel
      → Inside size r.cursor (read_fields fuel end_at fields r)
  unfolding read_fields
  read_fields-Inside zero end_at fields r e l some_fuel enough = absurd (omega arith)
  read_fields-Inside (suc fuel) end_at fields r e l some_fuel enough =
      elim (Bool-cases (ltb r.cursor end_at)) [
        | inl more ↦
            let before_end : r.cursor < end_at = ground arith in
            rw more (
              and_then-Inside size (suc r.cursor) r.cursor (read_rocketmq_string true r) _
                (read_rocketmq_string-Inside true r e l)
                (λ key r' e' h' l'.
                  and_then-Inside size (suc r'.cursor) r.cursor (read_rocketmq_string false r') _
                    (read_rocketmq_string-Inside false r' e' l')
                    (λ value r'' e'' h'' l''.
                      weaken size r''.cursor r.cursor
                        (read_fields fuel end_at (Dict.insert key value fields) r'') (omega arith)
                        (read_fields-Inside fuel end_at (Dict.insert key value fields) r'' e'' l''
                          (omega arith) (omega arith)))))
        | inr stop ↦ elim (Bool-cases (r.cursor == end_at)) [
          | inl at_end ↦ rw (stop, at_end) (e, omega arith, l)
          | inr past ↦ rw (stop, past) tt
        ]
      ]

  read_ext_fields-Inside :
      (n : ℕ) (r : RocketmqHeaderReader)
      → length r.bytes ≡ size
      → r.cursor ≤ size
      → Inside size r.cursor (read_rocketmq_ext_fields n r)
  unfolding read_rocketmq_ext_fields
  read_ext_fields-Inside n r e l = elim (Bool-cases (n == 0)) [
    | inl empty ↦ rw empty (e, omega arith, l)
    | inr some_field ↦ elim (Bool-cases (ltb (length r.bytes) (r.cursor + n))) [
      | inl short ↦ rw (some_field, short) tt
      | inr long ↦
          rw (some_field, long)
            (read_fields-Inside (suc n) (r.cursor + n) [] r e l (omega arith) (omega arith))
    ]
  ]

  at_boundary-Inside :
      (command : RemotingCommand) (r : RocketmqHeaderReader)
      → length r.bytes ≡ size
      → r.cursor ≤ size
      → Inside size r.cursor (at_boundary command r)
  unfolding at_boundary
  at_boundary-Inside command r e l = elim (Bool-cases (r.cursor == length r.bytes)) [
    | inl at_end ↦ rw at_end (e, omega arith, l)
    | inr past ↦ rw past tt
  ]

  -- A read of a fixed width, in front of what follows.
  after_unsigned :
      {B : Type 0} (n : ℕ) (r : RocketmqHeaderReader) (f : ℕ → RocketmqHeaderReader → Reading B)
      → length r.bytes ≡ size
      → r.cursor ≤ size
      → ((a : ℕ) (r' : RocketmqHeaderReader)
          → length r'.bytes ≡ size
          → r'.cursor ≤ size
          → Inside size 0 (f a r'))
      → Inside size 0 (and_then (read_unsigned n r) f)
  after_unsigned n r f e l next =
      and_then-Inside size (r.cursor + n) 0 (read_unsigned n r) f
        (read_unsigned-Inside size r e l n) (λ a r' e' h' l'. next a r' e' l')

  read_header-Inside :
      (r : RocketmqHeaderReader)
      → length r.bytes ≡ size
      → r.cursor ≤ size
      → Inside size 0 (read_header r)
  unfolding read_header
  read_header-Inside r e l = after_unsigned 2 r _ e l (λ code r1 e1 l1.
      after_unsigned 1 r1 _ e1 l1 (λ language r2 e2 l2.
        after_unsigned 2 r2 _ e2 l2 (λ version r3 e3 l3.
          after_unsigned 4 r3 _ e3 l3 (λ opaque_bits r4 e4 l4.
            after_unsigned 4 r4 _ e4 l4 (λ flag r5 e5 l5.
              and_then-Inside size (suc r5.cursor) 0 (read_rocketmq_string false r5) _
                (read_rocketmq_string-Inside false r5 e5 l5)
                (λ remark r6 e6 h6 l6. after_unsigned 4 r6 _ e6 l6 (λ fields_length r7 e7 l7.
                  elim (Bool-cases (ltb (length r7.bytes % 2 ^ 32) fields_length)) [
                    | inl long ↦ rw long tt
                    | inr fits ↦ rw fits (
                        and_then-Inside size r7.cursor 0 (read_rocketmq_ext_fields fields_length r7)
                          _ (read_ext_fields-Inside fields_length r7 e7 l7)
                          (λ fields r8 e8 h8 l8.
                            weaken size r8.cursor 0 _ (omega arith)
                              (at_boundary-Inside _ r8 e8 l8)))
                  ])))))))

header_result-ne-panics :
    (size low : ℕ) (m : Reading RemotingCommand)
    → Inside size low m
    → header_result m ≢ header_panics
unfolding header_result
header_result-ne-panics size low (got command r) h e = cc
header_result-ne-panics size low refused h e = cc
header_result-ne-panics size low out_of_range h e = h
header_result-ne-panics size low out_of_fuel h e = h

-- The binary header decoder returns a command or an error for every input: no read is out of range,
-- and the loop over the fields ends.
pub decode_rocketmq_remoting_header_total :
    (header : Bytes) → decode_rocketmq_remoting_header header ≢ header_panics
unfolding decode_rocketmq_remoting_header
decode_rocketmq_remoting_header_total header =
    header_result-ne-panics (length header) 0 (read_header (record { bytes = header; cursor = 0 }))
      (read_header-Inside (length header) (record { bytes = header; cursor = 0 }) refl
        (omega arith))
