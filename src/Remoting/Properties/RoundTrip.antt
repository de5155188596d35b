-- ===== src/Remoting/Properties/RoundTrip.antt =====
-- Properties that are written as one text are read back.
use go_rocketmq_dashboard.Base.{
  ℕ, ◌≡◌, ◌≢◌, ◌∙◌, refl, sym, ap, false, ◌==◌, nat_eq, text_eq, List, [], ◌∷◌, ◌++◌, append-nil,
  append_assoc, All, All-append, arith,
}
use go_rocketmq_dashboard.Base.Dict
use go_rocketmq_dashboard.Base.Dict.{Dict}
use go_rocketmq_dashboard.Base.Text.{
  Text, trim_space, trim_left, trim_right, trim_right-append, is_space, split_on, split_on-append,
  Lacks, cut_at-append,
}
use go_rocketmq_dashboard.Remoting.Properties.{
  encode_message_properties, set_pair, decode_parts, decode_message_properties,
}

-- A key and a value that the text keeps apart.
abbrev pub IsPlain : Text × Text → Type 0
IsPlain p = (p.0 ≢ []) × (p.1 ≢ []) × Lacks 1 p.0 × Lacks 2 p.0 × Lacks 2 p.1

-- No key stands in the list twice.
abbrev pub HasDistinctKeys : Dict Text Text → Type 0
HasDistinctKeys [] = Unit
HasDistinctKeys (p ∷ rest) =
    All (λ (q : Text × Text). (p.0 == q.0) ≡ false) rest × HasDistinctKeys rest

-- The first key does not begin with a space.
abbrev pub StartsPlain : Dict Text Text → Type 0
StartsPlain [] = Unit
StartsPlain (([], value) ∷ rest) = Unit
StartsPlain ((c ∷ key, value) ∷ rest) = is_space c ≡ false

not_empty : (t : Text) → t ≢ [] → (t == []) ≡ false
not_empty t h = ground arith

encode-plain :
    (p : Text × Text) (rest : Dict Text Text)
    → IsPlain p
    → encode_message_properties (p ∷ rest)
      ≡ p.0 ++ (1 ∷ (p.1 ++ (2 ∷ encode_message_properties rest)))
unfolding encode_message_properties
encode-plain (key, value) rest (k, v, _, _, _) = rw (not_empty key k, not_empty value v) refl

append_cons : (s : Text) (c : ℕ) (t : Text) → s ++ c ∷ t ≢ []
append_cons [] c t e = cc
append_cons (d ∷ s) c t e = cc

insert-append :
    (key value : Text) (properties : Dict Text Text)
    → All (λ (q : Text × Text). (q.0 == key) ≡ false) properties
    → Dict.insert key value properties ≡ properties ++ (key, value) ∷ []
unfolding Dict.insert
insert-append key value [] _ = refl
insert-append key value (q ∷ rest) (h, t) = rw (h, insert-append key value rest t) refl

-- None of the keys of `ps` is a key of `properties`.
abbrev AreFresh : Dict Text Text → Dict Text Text → Type 0
AreFresh properties ps =
    All (λ (p : Text × Text). All (λ (q : Text × Text). (q.0 == p.0) ≡ false) properties) ps

still_fresh :
    (properties : Dict Text Text) (p : Text × Text) (ps : Dict Text Text)
    → AreFresh properties ps
    → All (λ (q : Text × Text). (p.0 == q.0) ≡ false) ps
    → AreFresh (properties ++ p ∷ []) ps
still_fresh properties p [] _ _ = tt
still_fresh properties p (q ∷ ps) (f, fs) (d, ds) = (
  All-append (λ (x : Text × Text). (x.0 == q.0) ≡ false) properties (p ∷ []) f (d, tt),
  still_fresh properties p ps fs ds,
)

one_part :
    (p : Text × Text) (rest : Text)
    → IsPlain p
    → split_on 2 (p.0 ++ (1 ∷ (p.1 ++ (2 ∷ rest)))) ≡ (p.0 ++ 1 ∷ p.1) ∷ split_on 2 rest
one_part p rest (k, v, one, two, two') =
    let parts : (p.0 ++ 1 ∷ p.1) ++ (2 ∷ rest) ≡ p.0 ++ (1 ∷ (p.1 ++ (2 ∷ rest))) =
      append_assoc p.0 (1 ∷ p.1) (2 ∷ rest) in
    ap (split_on 2) (sym parts)
    ∙ split_on-append 2 (p.0 ++ 1 ∷ p.1) rest
        (All-append (λ c. (c == 2) ≡ false) p.0 (1 ∷ p.1) two (ground arith, two'))

part_set :
    (properties : Dict Text Text) (p : Text × Text) (parts : List Text)
    → IsPlain p
    → All (λ (q : Text × Text). (q.0 == p.0) ≡ false) properties
    → decode_parts properties ((p.0 ++ 1 ∷ p.1) ∷ parts) ≡ decode_parts (properties ++ p ∷ []) parts
unfolding decode_parts set_pair
part_set properties p parts (k, v, one, two, two') fresh =
    rw (not_empty (p.0 ++ 1 ∷ p.1) (λ e. append_cons p.0 1 p.1 e), cut_at-append 1 p.0 p.1 one)
      (ap (λ l. decode_parts l parts) (insert-append p.0 p.1 properties fresh))

encode_nil : encode_message_properties [] ≡ []
unfolding encode_message_properties
encode_nil = refl

no_part : (properties : Dict Text Text) → decode_parts properties (split_on 2 []) ≡ properties ++ []
unfolding decode_parts split_on text_eq
no_part properties = sym (append-nil properties)

decode_parts-encode :
    (properties ps : Dict Text Text)
    → All IsPlain ps
    → HasDistinctKeys ps
    → AreFresh properties ps
    → decode_parts properties (split_on 2 (encode_message_properties ps)) ≡ properties ++ ps
unfolding decode_parts
decode_parts-encode properties [] _ _ _ =
    ap (λ t. decode_parts properties (split_on 2 t)) encode_nil ∙ no_part properties
decode_parts-encode properties (p ∷ ps) (plain, plains) (d, ds) (f, fs) =
    ap (λ t. decode_parts properties (split_on 2 t)) (encode-plain p ps plain)
    ∙ ap (decode_parts properties) (one_part p (encode_message_properties ps) plain)
    ∙ part_set properties p (split_on 2 (encode_message_properties ps)) plain f
    ∙ decode_parts-encode (properties ++ p ∷ []) ps plains ds (still_fresh properties p ps fs d)
    ∙ append_assoc properties (p ∷ []) ps

ends_in_two :
    (p : Text × Text) (ps : Dict Text Text)
    → All IsPlain (p ∷ ps)
    → (t : Text) × (encode_message_properties (p ∷ ps) ≡ t ++ 2 ∷ [])
ends_in_two p [] (plain, _) = (
  p.0 ++ 1 ∷ p.1,
  encode-plain p [] plain
      ∙ ap (λ l. p.0 ++ (1 ∷ (p.1 ++ (2 ∷ l)))) encode_nil
      ∙ sym (append_assoc p.0 (1 ∷ p.1) (2 ∷ [])),
)
ends_in_two p (q ∷ ps) (plain, plains) =
    let later = ends_in_two q ps plains in
    (
      (p.0 ++ 1 ∷ p.1) ++ 2 ∷ later.0,
      encode-plain p (q ∷ ps) plain
          ∙ ap (λ l. p.0 ++ (1 ∷ (p.1 ++ (2 ∷ l)))) later.1
          ∙ sym (append_assoc p.0 (1 ∷ p.1) (2 ∷ (later.0 ++ 2 ∷ [])))
          ∙ sym (append_assoc (p.0 ++ 1 ∷ p.1) (2 ∷ later.0) (2 ∷ [])),
    )

two_solid : trim_right (2 ∷ []) ≡ 2 ∷ []
unfolding trim_right is_space nat_eq
two_solid = refl

trim_right_two : (t : Text) → trim_right (t ++ 2 ∷ []) ≡ t ++ 2 ∷ []
trim_right_two t = trim_right-append t (2 ∷ []) (λ e. cc) two_solid

trim_left_solid : (c : ℕ) (t : Text) → is_space c ≡ false → trim_left (c ∷ t) ≡ c ∷ t
unfolding trim_left
trim_left_solid c t h = rw h refl

encoded_trimmed :
    (p : Text × Text) (ps : Dict Text Text)
    → All IsPlain (p ∷ ps)
    → StartsPlain (p ∷ ps)
    → trim_space (encode_message_properties (p ∷ ps)) ≡ encode_message_properties (p ∷ ps)
unfolding trim_space
encoded_trimmed ([], value) ps (plain, plains) starts = absurd (plain.0 refl)
encoded_trimmed (c ∷ key, value) ps (plain, plains) starts =
    let text = encode_message_properties ((c ∷ key, value) ∷ ps) in
    let written = encode-plain (c ∷ key, value) ps plain in
    let last = ends_in_two (c ∷ key, value) ps (plain, plains) in
    let left : trim_left text ≡ text =
      ap trim_left written
      ∙ trim_left_solid c (key ++ (1 ∷ (value ++ (2 ∷ encode_message_properties ps)))) starts
      ∙ sym written in
    ap trim_right (left ∙ last.1) ∙ trim_right_two last.0 ∙ sym last.1

encoded_some :
    (p : Text × Text) (ps : Dict Text Text) → IsPlain p → encode_message_properties (p ∷ ps) ≢ []
encoded_some p ps plain e =
    append_cons p.0 1 (p.1 ++ (2 ∷ encode_message_properties ps))
      (sym (encode-plain p ps plain) ∙ e)

fresh_start : (ps : Dict Text Text) → AreFresh [] ps
fresh_start [] = tt
fresh_start (p ∷ ps) = (tt, fresh_start ps)

nil_decoded : decode_message_properties [] ≡ []
unfolding decode_message_properties trim_space text_eq trim_right trim_left
nil_decoded = refl

-- A list of properties that is encoded is decoded to the same list, where no key stands in it twice,
-- no key or value is empty, no key has a separator in it and no value the one that ends a property,
-- and the first key does not begin with a space.
pub decode-encode_message_properties :
    (ps : Dict Text Text)
    → All IsPlain ps
    → HasDistinctKeys ps
    → StartsPlain ps
    → decode_message_properties (encode_message_properties ps) ≡ ps
unfolding decode_message_properties
decode-encode_message_properties [] plain distinct starts =
    ap decode_message_properties encode_nil ∙ nil_decoded
decode-encode_message_properties (p ∷ ps) plain distinct starts =
    rw
      (
        encoded_trimmed p ps plain starts,
        not_empty (encode_message_properties (p ∷ ps)) (encoded_some p ps plain.0),
        decode_message_properties,
      )
      (decode_parts-encode [] (p ∷ ps) plain distinct (fresh_start (p ∷ ps)))
