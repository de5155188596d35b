-- ===== src/Remoting/MessageId/RoundTrip.antt =====
-- A message id that is created is read back.
use go_rocketmq_dashboard.Base.{
  ℕ, ◌+◌, ◌-◌, ◌*◌, ◌/◌, ◌%◌, ◌^◌, ◌<◌, ◌≤◌, ◌≡◌, ◌∙◌, ◌⊎◌, inl, inr, refl, ap, false, not, ◌&&◌,
  ltb, ◌==◌, nat_eq, [], ◌∷◌, ◌++◌, take, drop, length, length-append, All, All-append, some, arith,
}
use native.Mathlib.Nat.{suc-add}
use go_rocketmq_dashboard.Base.Int.{ℤ, pos, negsuc, IsInt64}
use go_rocketmq_dashboard.Base.Text.{
  Text, trim_space, trim_left, trim_right, is_space, cons_trimmed,
}
use go_rocketmq_dashboard.Remoting.Frame.{put_uint32}
use go_rocketmq_dashboard.Remoting.Frame.Header.{Bytes, big_endian}
use go_rocketmq_dashboard.Remoting.Frame.Slices.{take_prefix, drop_prefix}
use go_rocketmq_dashboard.Remoting.MessageId.{
  to_uint64, to_int64, put_uint64, hex_digit, encode_hex, hex_value, decode_hex, create_message_id,
  offset_of_raw, decode_offset_message_id,
}

hex_value-hex_digit : (d : ℕ) → d < 16 → hex_value (hex_digit d) ≡ some d
unfolding hex_value hex_digit
hex_value-hex_digit d h = ground arith

decode_hex-encode_hex : (bs : Bytes) → All (λ b. b < 256) bs → decode_hex (encode_hex bs) ≡ some bs
unfolding decode_hex encode_hex
decode_hex-encode_hex [] _ = refl
decode_hex-encode_hex (b ∷ bs) (h, t) =
    rw
      (
        hex_value-hex_digit (b / 16) (omega arith),
        hex_value-hex_digit (b % 16) (omega arith),
        decode_hex-encode_hex bs t,
      )
      (ap (λ x. some (x ∷ bs)) (omega arith))

hex_digit_solid : (d : ℕ) → d < 16 → is_space (hex_digit d) ≡ false
unfolding is_space hex_digit
hex_digit_solid d h = ground arith

big_endian-put_uint32 : (v n : ℕ) → n < 2 ^ 32 → big_endian v (put_uint32 n) ≡ v * 2 ^ 32 + n
unfolding big_endian put_uint32
big_endian-put_uint32 v n h = omega arith

big_endian-append :
    (v : ℕ) (xs ys : Bytes) → big_endian v (xs ++ ys) ≡ big_endian (big_endian v xs) ys
unfolding big_endian
big_endian-append v [] ys = refl
big_endian-append v (x ∷ xs) ys = big_endian-append (v * 256 + x) xs ys

big_endian-put_uint64 : (n : ℕ) → n < 2 ^ 64 → big_endian 0 (put_uint64 n) ≡ n
unfolding put_uint64
big_endian-put_uint64 n h =
    big_endian-append 0 (put_uint32 (n / 2 ^ 32)) (put_uint32 (n % 2 ^ 32))
    ∙ big_endian-put_uint32 (big_endian 0 (put_uint32 (n / 2 ^ 32))) (n % 2 ^ 32) (omega arith)
    ∙ omega (arith, big_endian-put_uint32 0 (n / 2 ^ 32) (omega arith))

to_int64-to_uint64 : (z : ℤ) → IsInt64 z → to_int64 (to_uint64 z) ≡ z
to_int64-to_uint64 (pos n) h = ground arith
to_int64-to_uint64 (negsuc n) h = ground arith

trim_left_solid : (c : ℕ) (s : Text) → is_space c ≡ false → trim_left (c ∷ s) ≡ c ∷ s
unfolding trim_left
trim_left_solid c s h = rw h refl

trim_right_solid : (s : Text) → All (λ c. is_space c ≡ false) s → trim_right s ≡ s
unfolding trim_right cons_trimmed
trim_right_solid [] _ = refl
trim_right_solid (c ∷ []) (h, _) = rw h refl
trim_right_solid (c ∷ d ∷ s) (h, t) = rw (trim_right_solid (d ∷ s) t) refl

trim_space_solid : (s : Text) → All (λ c. is_space c ≡ false) s → trim_space s ≡ s
unfolding trim_space trim_left
trim_space_solid [] _ = trim_right_solid [] tt
trim_space_solid (c ∷ s) (h, t) =
    ap trim_right (trim_left_solid c s h) ∙ trim_right_solid (c ∷ s) (h, t)

encode_hex_solid :
    (bs : Bytes) → All (λ b. b < 256) bs → All (λ c. is_space c ≡ false) (encode_hex bs)
unfolding encode_hex
encode_hex_solid [] _ = tt
encode_hex_solid (b ∷ bs) (h, t) = (
  hex_digit_solid (b / 16) (omega arith),
  (hex_digit_solid (b % 16) (omega arith), encode_hex_solid bs t),
)

put_uint32_bytes : (n : ℕ) → All (λ b. b < 256) (put_uint32 n)
unfolding put_uint32
put_uint32_bytes n = (omega arith, (omega arith, (omega arith, (omega arith, tt))))

put_uint64_bytes : (n : ℕ) → All (λ b. b < 256) (put_uint64 n)
unfolding put_uint64
put_uint64_bytes n =
    All-append (λ b. b < 256) (put_uint32 (n / 2 ^ 32)) (put_uint32 (n % 2 ^ 32))
      (put_uint32_bytes (n / 2 ^ 32)) (put_uint32_bytes (n % 2 ^ 32))

length-put_uint32 : (n : ℕ) → length (put_uint32 n) ≡ 4
unfolding put_uint32
length-put_uint32 n = refl

length-put_uint64 : (n : ℕ) → length (put_uint64 n) ≡ 8
unfolding put_uint64 put_uint32
length-put_uint64 n = refl

to_uint64_bound : (z : ℤ) → to_uint64 z < 2 ^ 64
to_uint64_bound (pos n) = omega arith
to_uint64_bound (negsuc n) = omega arith

take-put_uint32 : (n : ℕ) (ys : Bytes) → take 4 (put_uint32 n ++ ys) ≡ put_uint32 n
unfolding put_uint32
take-put_uint32 n ys = refl

drop-put_uint32 :
    (xs : Bytes) (n : ℕ) (ys : Bytes) → drop (length xs + 4) (xs ++ (put_uint32 n ++ ys)) ≡ ys
unfolding put_uint32
drop-put_uint32 [] n ys = refl
drop-put_uint32 (x ∷ xs) n ys = rw (suc-add (length xs) 4) (drop-put_uint32 xs n ys)

length-raw :
    (ip : Bytes) (port offset : ℕ)
    → length (ip ++ (put_uint32 port ++ put_uint64 offset)) ≡ length ip + 12
length-raw ip port offset = omega (
  arith,
  length-append ip (put_uint32 port ++ put_uint64 offset),
  length-append (put_uint32 port) (put_uint64 offset),
  length-put_uint32 port,
  length-put_uint64 offset,
)

good_size :
    (n total : ℕ)
    → (n ≡ 4) ⊎ (n ≡ 16)
    → total ≡ n + 12
    → (not (total == 16) && not (total == 28)) ≡ false
good_size n total (inl e) h = ground arith
good_size n total (inr e) h = ground arith

port_read : (port : ℕ) → port ≤ 65535 → big_endian 0 (put_uint32 port) ≡ port
port_read port h = omega (arith, big_endian-put_uint32 0 port (omega arith))

good_ip : (n : ℕ) → (n ≡ 4) ⊎ (n ≡ 16) → (not (n == 4) && not (n == 16)) ≡ false
good_ip n (inl e) = ground arith
good_ip n (inr e) = ground arith

create_lem :
    (ip : Bytes) (port : ℕ) (offset : ℤ)
    → (length ip ≡ 4) ⊎ (length ip ≡ 16)
    → port ≤ 65535
    → create_message_id ip (pos port) offset
      ≡ encode_hex (ip ++ (put_uint32 port ++ put_uint64 (to_uint64 offset)))
unfolding create_message_id
create_lem ip port offset size h =
    let small : port % 2 ^ 32 ≡ port = omega arith in
    rw (good_ip (length ip) size)
      (ap (λ n. encode_hex (ip ++ (put_uint32 n ++ put_uint64 (to_uint64 offset)))) small)

good_port : (port : ℕ) → port ≤ 65535 → ltb 65535 port ≡ false
good_port port h = ground arith

module _ (join_host_port : Bytes → ℕ → Text) where
  raw_lem :
      (ip : Bytes) (port : ℕ) (offset : ℤ)
      → (length ip ≡ 4) ⊎ (length ip ≡ 16)
      → port ≤ 65535
      → IsInt64 offset
      → offset_of_raw join_host_port (ip ++ (put_uint32 port ++ put_uint64 (to_uint64 offset)))
        ≡ some (join_host_port ip port, offset)
  unfolding offset_of_raw
  raw_lem ip port offset size h range =
      let tail = put_uint32 port ++ put_uint64 (to_uint64 offset) in
      let total : length (ip ++ tail) ≡ length ip + 12 = length-raw ip port (to_uint64 offset) in
      let host : length (ip ++ tail) - 12 ≡ length ip = omega (arith, total) in
      rw
        (
          good_size (length ip) (length (ip ++ tail)) size total,
          host,
          drop_prefix ip tail,
          take_prefix ip tail,
          take-put_uint32 port (put_uint64 (to_uint64 offset)),
          drop-put_uint32 ip port (put_uint64 (to_uint64 offset)),
          port_read port h,
          big_endian-put_uint64 (to_uint64 offset) (to_uint64_bound offset),
          good_port port h,
        )
        (ap (λ z. some (join_host_port ip port, z)) (to_int64-to_uint64 offset range))

  -- An id that is created of the bytes of an IPv4 or IPv6 address, a port and an offset of int64 is
  -- read back as that address and offset.
  pub decode-create_message_id :
      (ip : Bytes) (port : ℕ) (offset : ℤ)
      → (length ip ≡ 4) ⊎ (length ip ≡ 16)
      → All (λ b. b < 256) ip
      → port ≤ 65535
      → IsInt64 offset
      → decode_offset_message_id join_host_port (create_message_id ip (pos port) offset)
        ≡ some (join_host_port ip port, offset)
  unfolding decode_offset_message_id
  decode-create_message_id ip port offset size bytes h range =
      let raw = ip ++ (put_uint32 port ++ put_uint64 (to_uint64 offset)) in
      let raw_bytes : All (λ b. b < 256) raw =
        All-append (λ b. b < 256) ip (put_uint32 port ++ put_uint64 (to_uint64 offset)) bytes
          (All-append (λ b. b < 256) (put_uint32 port) (put_uint64 (to_uint64 offset))
            (put_uint32_bytes port) (put_uint64_bytes (to_uint64 offset))) in
      rw (create_lem ip port offset size h) (
        rw
          (
            trim_space_solid (encode_hex raw) (encode_hex_solid raw raw_bytes),
            decode_hex-encode_hex raw raw_bytes,
            decode_offset_message_id,
          )
          (raw_lem ip port offset size h range))
