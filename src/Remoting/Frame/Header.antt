-- ===== src/Remoting/Frame/Header.antt =====
-- The binary header: a cursor over the bytes, which every read moves.
use go_rocketmq_dashboard.Base.{
  ℕ, zero, suc, ◌+◌, ◌-◌, ◌*◌, ◌%◌, ◌^◌, Bool, true, false, if◌then◌else◌, ltb, ◌==◌, nat_eq,
  text_eq, List, [], ◌∷◌, take, drop, length, get_elem?, none, some,
}
use go_rocketmq_dashboard.Base.Dict
use go_rocketmq_dashboard.Base.Dict.{Dict}
use go_rocketmq_dashboard.Base.Int.{ℤ, pos, negsuc}
use go_rocketmq_dashboard.Base.Text.{Text, text}

abbrev pub Bytes : Type 0
Bytes = List ℕ

pub record RemotingCommand : Type 0 where
  pub code : ℤ
  pub language : Text
  pub version : ℤ
  pub opaque : ℤ
  pub flag : ℤ
  pub remark : Text
  pub ext_fields : Dict Text Text
  pub body : Bytes

pub record RocketmqHeaderReader : Type 0 where
  pub bytes : Bytes
  pub cursor : ℕ

-- A value and the reader after it, an error, an index or a slice out of range, or a loop that its
-- fuel ends.
pub data Reading (A : Type 0) : Type 0 where
  got : A → RocketmqHeaderReader → Reading A
  refused : Reading A
  out_of_range : Reading A
  out_of_fuel : Reading A

-- `value, err := ...; if err != nil { return err }`
abbrev pub and_then :
    {A B : Type 0} → Reading A → (A → RocketmqHeaderReader → Reading B) → Reading B
and_then (got a r) f = f a r
and_then refused f = refused
and_then out_of_range f = out_of_range
and_then out_of_fuel f = out_of_fuel

-- The bytes as one number, the first byte highest.
unfoldable pub big_endian : ℕ → Bytes → ℕ
big_endian value [] = value
big_endian value (b ∷ bs) = big_endian (value * 256 + b) bs

-- `data[cursor : cursor+n]`, after which the cursor moves by `n`.
unfoldable pub slice : {A : Type 0} → ℕ → (Bytes → A) → RocketmqHeaderReader → Reading A
slice n f r =
    if ltb (length r.bytes) (r.cursor + n)
    then out_of_range
    else got (f (take n (drop r.cursor r.bytes))) (record r { cursor = r.cursor + n })

-- `readByte`, `readUint16` and `readUint32` are this with one, two and four bytes.
unfoldable pub read_unsigned : ℕ → RocketmqHeaderReader → Reading ℕ
unfolding slice big_endian
read_unsigned n r =
    if ltb (length r.bytes) (r.cursor + n) then refused else slice n (big_endian 0) r

unfoldable pub read_string_body : ℕ → RocketmqHeaderReader → Reading Text
unfolding slice
read_string_body n r =
    if n == 0
    then got [] r
    else if ltb ((length r.bytes - r.cursor) % 2 ^ 32) n
    then refused
    else slice n (λ bytes. bytes) r

unfoldable pub read_rocketmq_string : Bool → RocketmqHeaderReader → Reading Text
unfolding read_unsigned read_string_body
read_rocketmq_string use_short_length r =
    and_then (read_unsigned (if use_short_length then 2 else 4) r) read_string_body

-- `for reader.cursor < end`, with fuel. The rest of the loop is passed on as a function.
unfoldable pub read_fields :
    ℕ → ℕ → Dict Text Text → RocketmqHeaderReader → Reading (Dict Text Text)
unfolding read_rocketmq_string Dict.insert
read_fields zero end_at fields r = out_of_fuel
read_fields (suc fuel) end_at fields r =
    let continue = read_fields fuel end_at in
    if ltb r.cursor end_at
    then and_then (read_rocketmq_string true r) (λ key r'.
      and_then (read_rocketmq_string false r')
        (λ value r''. continue (Dict.insert key value fields) r''))
    else if r.cursor == end_at
    then got fields r
    else refused

-- Each field takes at least six bytes, so a round for each byte is enough.
unfoldable pub read_rocketmq_ext_fields : ℕ → RocketmqHeaderReader → Reading (Dict Text Text)
unfolding read_fields
read_rocketmq_ext_fields n r =
    if n == 0
    then got [] r
    else if ltb (length r.bytes) (r.cursor + n)
    then refused
    else read_fields (suc n) (r.cursor + n) [] r

-- `int32(value)` of a `uint32`.
abbrev pub to_int32 : ℕ → ℤ
to_int32 n = if ltb n (2 ^ 31) then pos n else negsuc (2 ^ 32 - 1 - n)

abbrev pub language_names : List Text
language_names =
    text "JAVA"
    ∷ text "CPP"
    ∷ text "DOTNET"
    ∷ text "PYTHON"
    ∷ text "DELPHI"
    ∷ text "ERLANG"
    ∷ text "RUBY"
    ∷ text "OTHER"
    ∷ text "HTTP"
    ∷ text "GO"
    ∷ text "PHP"
    ∷ text "OMS"
    ∷ text "RUST"
    ∷ text "NODE_JS"
    ∷ []

unfoldable pub rocketmq_language_name : ℕ → Text
rocketmq_language_name code = elim (get_elem? language_names code) [ none ↦ [] | some name ↦ name ]

-- The end of the header must be reached.
unfoldable pub at_boundary : RemotingCommand → RocketmqHeaderReader → Reading RemotingCommand
at_boundary command r = if r.cursor == length r.bytes then got command r else refused

unfoldable pub read_header : RocketmqHeaderReader → Reading RemotingCommand
unfolding read_unsigned read_rocketmq_string read_rocketmq_ext_fields rocketmq_language_name
    at_boundary
read_header r = and_then (read_unsigned 2 r) (λ code r1.
    and_then (read_unsigned 1 r1) (λ language r2. and_then (read_unsigned 2 r2) (λ version r3.
      and_then (read_unsigned 4 r3) (λ opaque_bits r4. and_then (read_unsigned 4 r4) (λ flag r5.
        and_then (read_rocketmq_string false r5) (λ remark r6.
          and_then (read_unsigned 4 r6) (λ fields_length r7.
            if ltb (length r7.bytes % 2 ^ 32) fields_length
            then refused
            else and_then (read_rocketmq_ext_fields fields_length r7) (λ fields.
              at_boundary (record {
                code = pos code;
                language = rocketmq_language_name language;
                version = pos version;
                opaque = to_int32 opaque_bits;
                flag = pos flag;
                remark = remark;
                ext_fields = fields;
                body = [];
              })))))))))

pub data HeaderResult : Type 0 where
  header_command : RemotingCommand → HeaderResult
  header_refused : HeaderResult
  header_panics : HeaderResult

unfoldable pub header_result : Reading RemotingCommand → HeaderResult
header_result (got command r) = header_command command
header_result refused = header_refused
header_result out_of_range = header_panics
header_result out_of_fuel = header_panics

unfoldable pub decode_rocketmq_remoting_header : Bytes → HeaderResult
unfolding read_header header_result
decode_rocketmq_remoting_header header =
    header_result (read_header (record { bytes = header; cursor = 0 }))
