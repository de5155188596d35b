-- ===== src/Tests/Audit.antt =====
-- The admission of mutations and the audit file at concrete inputs.
use go_rocketmq_dashboard.Base.{
  ◌≡◌, refl, true, false, Option, none, some, List, [], ◌∷◌, ◌++◌, take, filter, inr, text_eq,
  nat_eq, ◌==◌, if◌then◌else◌, arith,
}
use go_rocketmq_dashboard.Base.Int.{pos}
use go_rocketmq_dashboard.Base.Sort.{sort_stable}
use go_rocketmq_dashboard.Base.Text.{
  Text, text, trim_space, trim_left, trim_right, is_space, cons_trimmed, Lacks,
}
use go_rocketmq_dashboard.Auth.{topic_write, Principal, token_authenticator, Authenticator}
use go_rocketmq_dashboard.Audit.{
  AuditRecord, started, pending, anonymous, Ambient, Operation, begin_mutation_for_cluster,
}
use go_rocketmq_dashboard.Audit.{complete, marshal_audit_value}
use go_rocketmq_dashboard.Audit.Completion.{IsCompletion, complete-IsCompletion}
use go_rocketmq_dashboard.Audit.Store.{memory_append}
use go_rocketmq_dashboard.Audit.Admission.{Decided, begin_mutation-Decided}
use go_rocketmq_dashboard.Audit.Store.{
  LogFile, bytes, newer, in_cluster, limit_or_default, file_append, file_list, memory_audit_store,
}
use go_rocketmq_dashboard.Audit.Store.Log.{undisturbed, append_all, Codable, file_list-append_all}
use go_rocketmq_dashboard.Audit.Store.Torn.{interrupted, append_after_torn}

abbrev operation : Operation
operation = record {
  permission = topic_write;
  action = text "topic.delete";
  cluster_id = text "main";
  target = text "orders";
}

abbrev ambient : Ambient
ambient = record {
  operation_id = some (text "op-1");
  drawn_request_id = none;
  now = pos 5;
  context = undisturbed;
}

abbrev ann : Principal
ann = record { subject = text "ann"; roles = text "operator" ∷ [] }

abbrev one_token : Authenticator
one_token = token_authenticator ((text "t1", ann) ∷ [])

abbrev header : Text → Text
header name = if name == text "Authorization" then text "Bearer t1" else text "cleanup"

abbrev marshal : Text → Option Text
marshal value = some value

abbrev path_unescape : Text → Option Text
path_unescape s = some s

begin_mutation-Decided_example :
    Decided memory_audit_store one_token marshal path_unescape operation ambient header [] (
      begin_mutation_for_cluster memory_audit_store one_token marshal path_unescape operation
        ambient header
        (some (text "{}"))
        [])
begin_mutation-Decided_example =
    begin_mutation-Decided memory_audit_store one_token marshal path_unescape operation ambient
      header (some (text "{}")) []

abbrev record_of : Text → AuditRecord
record_of id = record {
  operation_id = id;
  phase = started;
  timestamp_unix_milli = pos 5;
  actor = anonymous;
  action = [];
  cluster_id = text "main";
  target = [];
  reason = [];
  before = [];
  after = [];
  verification = [];
  result = pending;
  error = [];
  rollback_of = [];
  request_id = [];
}

-- A codec that knows two records.
abbrev encode : AuditRecord → Option Text
encode r =
    if r.operation_id == text "1"
    then some (text "{1}")
    else if r.operation_id == text "2"
    then some (text "{2}")
    else none

abbrev decode : Text → Option AuditRecord
decode line =
    if line == text "{1}"
    then some (record_of (text "1"))
    else if line == text "{2}"
    then some (record_of (text "2"))
    else none

abbrev no_file : LogFile
no_file = record { path = text "audit.log"; content = none }

abbrev two_records : List AuditRecord
two_records = record_of (text "1") ∷ record_of (text "2") ∷ []

lines : Codable encode decode two_records
unfolding text_eq trim_space trim_left trim_right is_space cons_trimmed nat_eq
lines = (
  (
    text "{1}",
    record {
      encodes = refl;
      one_line = (refl, (refl, (refl, tt)));
      trimmed = refl;
      solid = λ e. cc;
      decodes = refl;
    },
  ),
  (
    (
      text "{2}",
      record {
        encodes = refl;
        one_line = (refl, (refl, (refl, tt)));
        trimmed = refl;
        solid = λ e. cc;
        decodes = refl;
      },
    ),
    tt,
  ),
)

path_given : (trim_space no_file.path == []) ≡ false
unfolding text_eq trim_space trim_left trim_right is_space cons_trimmed nat_eq
path_given = refl

half_line : decode (trim_space (text "{2")) ≡ none
unfolding text_eq trim_space trim_left trim_right is_space cons_trimmed nat_eq
half_line = refl

half_line-Lacks : Lacks b'\n' (text "{2")
unfolding nat_eq
half_line-Lacks = (refl, (refl, tt))

file_list-append_all_example :
    ((append_all encode decode no_file two_records).1 ≡ true)
    × (file_list encode decode undisturbed
          (record no_file {
            content =
                some (bytes (append_all encode decode no_file two_records).0.content ++ text "{2");
          })
          (text "main")
          (pos 1)
        ≡ some (
            take
              (limit_or_default (pos 1))
              (sort_stable newer (filter (in_cluster (text "main")) two_records))))
file_list-append_all_example =
    file_list-append_all encode decode no_file two_records (text "{2") (text "main") (pos 1)
      path_given refl lines (half_line-Lacks, inr half_line)

joined : decode (trim_space (text "{" ++ text "{2}")) ≡ none
unfolding text_eq trim_space trim_left trim_right is_space cons_trimmed nat_eq
joined = refl

encoded_first : encode (record_of (text "1")) ≡ some (text "{1}")
unfolding text_eq nat_eq
encoded_first = refl

encoded_second : encode (record_of (text "2")) ≡ some (text "{2}")
unfolding text_eq nat_eq
encoded_second = refl

append_after_torn_example :
    let after =
      file_append encode decode undisturbed
        (file_append encode decode (interrupted 1) no_file (record_of (text "1"))).0
        (record_of (text "2")) in
    (after.1 ≡ true) × (file_list encode decode undisturbed after.0 [] (pos 10) ≡ some [])
unfolding nat_eq
append_after_torn_example =
    append_after_torn encode decode no_file (record_of (text "1")) (record_of (text "2"))
      (text "{1}") (text "{2}") [] 1 (pos 10) path_given refl encoded_first encoded_second
      (omega arith) (refl, (refl, (refl, tt))) (refl, (refl, (refl, tt))) joined

complete_taken :
    complete memory_audit_store one_token marshal path_unescape
      (record_of (text "1"))
      ambient
      (some (text "{}"))
      none
      (some (text "timeout"))
      false
      []
    ≡ (
      (complete memory_audit_store one_token marshal path_unescape
          (record_of (text "1"))
          ambient
          (some (text "{}"))
          none
          (some (text "timeout"))
          false
          []).0,
      true,
    )
unfolding complete marshal_audit_value memory_append
complete_taken = refl

complete-IsCompletion_example :
    (end : AuditRecord) × IsCompletion (record_of (text "1")) end (some (text "timeout")) false
    × (memory_audit_store.append ambient.context [] end ≡ (
      (complete memory_audit_store one_token marshal path_unescape
          (record_of (text "1"))
          ambient
          (some (text "{}"))
          none
          (some (text "timeout"))
          false
          []).0,
      true,
    ))
complete-IsCompletion_example =
    complete-IsCompletion memory_audit_store one_token marshal path_unescape (record_of (text "1"))
      ambient (some (text "{}")) none (some (text "timeout")) false [] _ complete_taken
