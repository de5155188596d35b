-- ===== src/RuntimeConfig/Values.antt =====
-- The new value of a key, by the type of the value that it has, and the keys that need a restart.
use go_rocketmq_dashboard.Base.{
  ℕ, Bool, true, ◌&&◌, ◌||◌, if◌then◌else◌, ltb, leb, ◌==◌, nat_eq, text_eq, List, [], ◌∷◌, Option,
  none, some, contains, length,
}
use go_rocketmq_dashboard.Base.Itoa.{itoa}
use go_rocketmq_dashboard.Base.Strconv.{parse_bool, parse_int, format_bool}
use go_rocketmq_dashboard.Base.Text.{Text, text, trim_space, to_lower, has_prefix, ends_with}

-- `strings.EqualFold` on ASCII.
unfoldable pub equal_fold : Text → Text → Bool
unfolding to_lower
equal_fold s t = to_lower s == to_lower t

abbrev pub runtime_config_enum_options : Text → List Text
runtime_config_enum_options key =
    if key == text "brokerrole"
    then text "ASYNC_MASTER" ∷ text "SYNC_MASTER" ∷ text "SLAVE" ∷ []
    else if key == text "flushdisktype"
    then text "ASYNC_FLUSH" ∷ text "SYNC_FLUSH" ∷ []
    else if key == text "proxymode"
    then text "cluster" ∷ text "local" ∷ []
    else []

abbrev pub runtime_config_restart_keys : List Text
runtime_config_restart_keys =
    text "brokerclustername"
    ∷ text "brokerid"
    ∷ text "brokerip1"
    ∷ text "brokerip2"
    ∷ text "brokername"
    ∷ text "brokerrole"
    ∷ text "halistenport"
    ∷ text "listenport"
    ∷ text "usetls"
    ∷ []

-- What a value must be, when it is refused.
pub data ValueKind : Type 0 where
  an_option : List Text → ValueKind
  a_boolean : ValueKind
  an_integer : ValueKind
  a_number : ValueKind

pub data NormalizedValue : Type 0 where
  accepted : Text → NormalizedValue
  must_be : ValueKind → NormalizedValue

-- The loop over the options, each as it is spelled there.
unfoldable pub choose_option : List Text → Text → List Text → NormalizedValue
unfolding equal_fold
choose_option all value [] = must_be (an_option all)
choose_option all value (o ∷ options) =
    let later = choose_option all value options in if equal_fold value o then accepted o else later

unfoldable pub formatted : ValueKind → Option Text → NormalizedValue
formatted kind none = must_be kind
formatted kind (some value) = accepted value

-- `reformat_float` is `strconv.ParseFloat` followed by `strconv.FormatFloat`; `none` is its error.
module _ (reformat_float : Text → Option Text) where
  unfoldable pub normalize_by_previous : Text → Text → NormalizedValue
  unfolding parse_bool parse_int format_bool itoa formatted trim_space to_lower
  normalize_by_previous previous value = elim (parse_bool (to_lower (trim_space previous))) [
    | some _ ↦ elim (parse_bool (to_lower value)) [
      | none ↦ must_be a_boolean
      | some parsed ↦ accepted (format_bool parsed)
    ]
    | none ↦ elim (parse_int (trim_space previous)) [
      | some _ ↦ elim (parse_int value) [
        | none ↦ must_be an_integer
        | some parsed ↦ accepted (itoa parsed)
      ]
      | none ↦ elim (reformat_float (trim_space previous)) [
        | some _ ↦ formatted a_number (reformat_float value)
        | none ↦ accepted value
      ]
    ]
  ]

  unfoldable pub normalize_options : List Text → Text → Text → NormalizedValue
  unfolding normalize_by_previous choose_option
  normalize_options [] previous value = normalize_by_previous previous value
  normalize_options (o ∷ options) previous value = choose_option (o ∷ options) value (o ∷ options)

  unfoldable pub normalize_runtime_config_value : Text → Text → Text → NormalizedValue
  unfolding normalize_options trim_space to_lower
  normalize_runtime_config_value key previous next =
      normalize_options (runtime_config_enum_options (to_lower (trim_space key))) previous
        (trim_space next)

unfoldable pub runtime_config_requires_restart : Text → Bool
unfolding trim_space to_lower has_prefix ends_with
runtime_config_requires_restart key =
    let normalized = to_lower (trim_space key) in
    contains runtime_config_restart_keys normalized
    || has_prefix normalized (text "storepath")
    || ends_with normalized (text "listenport")

-- `[A-Za-z0-9_.-]`
unfoldable pub is_key_char : ℕ → Bool
is_key_char c =
    (leb b'A' c && leb c b'Z')
    || (leb b'a' c && leb c b'z')
    || (leb b'0' c && leb c b'9')
    || c == b'_'
    || c == b'.'
    || c == b'-'

unfoldable pub all_key_chars : Text → Bool
unfolding is_key_char
all_key_chars [] = true
all_key_chars (c ∷ s) = is_key_char c && all_key_chars s

-- `runtimeConfigKeyPattern`
unfoldable pub matches_key_pattern : Text → Bool
unfolding all_key_chars
matches_key_pattern key = all_key_chars key && ltb 0 (length key) && leb (length key) 160
