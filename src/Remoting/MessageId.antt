-- ===== src/Remoting/MessageId.antt =====
-- internal/rocketmq/goadmin/remoting_client.go: message ids, which hold the address and the offset
-- of a stored message. The printing of an address by package net is a parameter.
pub mod RoundTrip
use go_rocketmq_dashboard.Base.{
  ℕ, zero, suc, ◌+◌, ◌-◌, ◌*◌, ◌/◌, ◌%◌, ◌^◌, Bool, true, false, not, ◌&&◌, if◌then◌else◌, ltb, leb,
  ◌==◌, nat_eq, List, [], ◌∷◌, ◌++◌, take, drop, length, Option, none, some,
}
use go_rocketmq_dashboard.Base.Int.{ℤ, pos, negsuc}
use go_rocketmq_dashboard.Base.Text.{Text, trim_space}
use go_rocketmq_dashboard.Remoting.Frame.{put_uint32}
use go_rocketmq_dashboard.Remoting.Frame.Header.{Bytes, big_endian}
use go_rocketmq_dashboard.Remoting.JavaOrder.{to_uint32}

-- `uint64(value)`
abbrev pub to_uint64 : ℤ → ℕ
to_uint64 (pos n) = n % 2 ^ 64
to_uint64 (negsuc n) = 2 ^ 64 - 1 - n % 2 ^ 64

-- `int64(value)` of a `uint64`.
abbrev pub to_int64 : ℕ → ℤ
to_int64 n = if ltb n (2 ^ 63) then pos n else negsuc (2 ^ 64 - 1 - n)

unfoldable pub put_uint64 : ℕ → Bytes
unfolding put_uint32
put_uint64 n = put_uint32 (n / 2 ^ 32) ++ put_uint32 (n % 2 ^ 32)

-- A digit of `strings.ToUpper(hex.EncodeToString(raw))`.
unfoldable pub hex_digit : ℕ → ℕ
hex_digit d = if ltb d 10 then b'0' + d else b'A' + (d - 10)

unfoldable pub encode_hex : Bytes → Text
unfolding hex_digit
encode_hex [] = []
encode_hex (b ∷ bs) = hex_digit (b / 16) ∷ hex_digit (b % 16) ∷ encode_hex bs

unfoldable pub hex_value : ℕ → Option ℕ
hex_value c =
    if leb b'0' c && leb c b'9'
    then some (c - b'0')
    else if leb b'a' c && leb c b'f'
    then some (c - b'a' + 10)
    else if leb b'A' c && leb c b'F'
    then some (c - b'A' + 10)
    else none

abbrev pub join_byte : Option ℕ → Option ℕ → Option Bytes → Option Bytes
join_byte (some hi) (some lo) (some rest) = some ((hi * 16 + lo) ∷ rest)
join_byte _ _ _ = none

-- `hex.DecodeString`; `none` is an error.
unfoldable pub decode_hex : Text → Option Bytes
unfolding hex_value
decode_hex [] = some []
decode_hex (c ∷ []) = none
decode_hex (c ∷ d ∷ rest) = join_byte (hex_value c) (hex_value d) (decode_hex rest)

unfoldable pub create_message_id : Bytes → ℤ → ℤ → Text
create_message_id store_host_ip store_host_port commit_log_offset =
    if not (length store_host_ip == 4) && not (length store_host_ip == 16)
    then []
    else encode_hex (
        store_host_ip
        ++ (put_uint32 (to_uint32 store_host_port) ++ put_uint64 (to_uint64 commit_log_offset)))

-- `join_host_port ip port` is `net.JoinHostPort(net.IP(ip).String(), strconv.Itoa(port))`.
module _ (join_host_port : Bytes → ℕ → Text) where
  unfoldable pub offset_of_raw : Bytes → Option (Text × ℤ)
  unfolding big_endian
  offset_of_raw raw =
      if not (length raw == 16) && not (length raw == 28)
      then none
      else (let ip_length = length raw - 12 in
          let port = big_endian 0 (take 4 (drop ip_length raw)) in
          if ltb 65535 port
          then none
          else some (
            join_host_port (take ip_length raw) port,
            to_int64 (big_endian 0 (drop (ip_length + 4) raw)),
          ))

  unfoldable pub decode_offset_message_id : Text → Option (Text × ℤ)
  decode_offset_message_id id = elim (decode_hex (trim_space id)) [
    | none ↦ none
    | some raw ↦ offset_of_raw raw
  ]
