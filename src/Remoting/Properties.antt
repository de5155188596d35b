-- ===== src/Remoting/Properties.antt =====
-- internal/rocketmq/goadmin/remoting_client.go: the properties of a message, as one text and as a
-- list. They keep their order, and a key that is set again keeps its place.
pub mod RoundTrip
use go_rocketmq_dashboard.Base.{
  ℕ, ◌≡◌, ◌≢◌, ◌∙◌, refl, sym, ap, Bool, true, false, ◌||◌, if◌then◌else◌, ◌==◌, nat_eq, text_eq,
  List, [], ◌∷◌, ◌++◌, append-nil, append_assoc, All, Option, none, some, arith, Bool-cases, inl,
  inr,
}
use go_rocketmq_dashboard.Base.Dict
use go_rocketmq_dashboard.Base.Dict.{Dict}
use go_rocketmq_dashboard.Base.Text.{
  Text, trim_space, trim_left, trim_right, trim_right-append, is_space, split_on, split_on-append,
  Lacks, cut_at, cut_at-append,
}

unfoldable pub encode_message_properties : Dict Text Text → Text
encode_message_properties [] = []
encode_message_properties ((key, value) ∷ rest) =
    let others = encode_message_properties rest in
    if key == [] || value == [] then others else key ++ (1 ∷ (value ++ (2 ∷ others)))

-- `properties.Set`
unfoldable pub set_pair : Option (Text × Text) → Dict Text Text → Dict Text Text
unfolding Dict.insert
set_pair none properties = properties
set_pair (some (key, value)) properties = Dict.insert key value properties

unfoldable pub decode_parts : Dict Text Text → List Text → Dict Text Text
decode_parts properties [] = properties
decode_parts properties (part ∷ parts) =
    decode_parts (if part == [] then properties else set_pair (cut_at 1 part) properties) parts

unfoldable pub decode_message_properties : Text → Dict Text Text
decode_message_properties raw =
    if trim_space raw == [] then [] else decode_parts [] (split_on 2 (trim_space raw))
