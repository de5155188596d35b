-- ===== src/Audit/Store/Log.antt =====
-- The audit file reads back what was appended to it.
use go_rocketmq_dashboard.Base.{
  Bool, true, false, ◌&&◌, Option, none, some, List, [], ◌∷◌, ◌++◌, if◌then◌else◌, ◌==◌, nat_eq,
  text_eq, filter, take, arith, ◌≡◌, ◌≢◌, refl, sym, ap, ◌∙◌, ◌⊎◌, All, append_assoc, append-nil,
}
use go_rocketmq_dashboard.Base.Int.{ℤ}
use go_rocketmq_dashboard.Base.Sort.{sort_stable}
use go_rocketmq_dashboard.Base.Text.{
  Text, trim_space, split_on, Lacks, split_on-append, split_on-Lacks,
}
use go_rocketmq_dashboard.Audit.{AuditRecord, Context, all_done}
use go_rocketmq_dashboard.Audit.Store.{
  LogFile, bytes, in_cluster, newer, limit_or_default, write_line, append_encoded, file_append,
  read_records, decoded, list_content, file_list,
}

abbrev pub undisturbed : Context
undisturbed = record { cancelled = false; file = all_done }

module _ (encode : AuditRecord → Option Text) (decode : Text → Option AuditRecord) where
  -- What JSON gives for a record: one line, neither empty nor with spaces round it, which reads back.
  pub record IsLineOf (r : AuditRecord) (line : Text) : Type 0 where
    pub encodes : encode r ≡ some line
    pub one_line : Lacks b'\n' line
    pub trimmed : trim_space line ≡ line
    pub solid : line ≢ []
    pub decodes : decode line ≡ some r

  -- The records are appended one after the other; all of the calls succeed, or not.
  pub append_all : LogFile → List AuditRecord → LogFile × Bool
  append_all s [] = (s, true)
  append_all s (r ∷ rs) =
      let (s', done) = file_append encode decode undisturbed s r in
      let (s'', rest_done) = append_all s' rs in (s'', done && rest_done)

  -- What an interrupted write leaves at the end of the file: part of a line that does not decode.
  abbrev pub IsTorn : Text → Type 0
  IsTorn torn = Lacks b'\n' torn × ((trim_space torn ≡ []) ⊎ (decode (trim_space torn) ≡ none))

  -- Every record of the list has a line.
  abbrev pub Codable : List AuditRecord → Type 0
  Codable = All (λ r. (line : Text) × IsLineOf r line)

  -- The text of the lines.
  log : (rs : List AuditRecord) → Codable rs → Text
  log [] _ = []
  log (r ∷ rs) ((line, _), h) = line ++ b'\n' ∷ log rs h

  append_one :
      (s : LogFile) (r : AuditRecord) (line : Text)
      → (trim_space s.path == []) ≡ false
      → encode r ≡ some line
      → file_append encode decode undisturbed s r
        ≡ (record s { content = some (bytes s.content ++ (line ++ b'\n' ∷ [])) }, true)
  unfolding file_append append_encoded write_line
  append_one s r line path e = rw path (rw (e, append_encoded))

  append_all-log :
      (s : LogFile) (rs : List AuditRecord) (h : Codable rs)
      → (trim_space s.path == []) ≡ false
      → ((append_all s rs).1 ≡ true)
        × (bytes (append_all s rs).0.content ≡ bytes s.content ++ log rs h)
  unfolding append_all log
  append_all-log s [] h path = (refl, sym (append-nil (bytes s.content)))
  append_all-log s (r ∷ rs) ((line, l), h) path =
      let (done, content) =
        append_all-log (record s { content = some (bytes s.content ++ (line ++ b'\n' ∷ [])) }) rs h
          path in
      rw (append_one s r line path l.encodes) (
        done,
        content
            ∙ append_assoc (bytes s.content) (line ++ b'\n' ∷ []) (log rs h)
            ∙ ap (◌++◌ (bytes s.content)) (append_assoc line (b'\n' ∷ []) (log rs h)),
      )

  read_records-torn :
      (cluster_id torn : Text)
      → IsTorn torn
      → read_records encode decode cluster_id (torn ∷ []) ≡ []
  unfolding read_records decoded
  read_records-torn cluster_id torn (_, t) = ground arith

  read_records-cons :
      (cluster_id : Text) (r : AuditRecord) (line : Text) (lines : List Text)
      → IsLineOf r line
      → read_records encode decode cluster_id (line ∷ lines) ≡ (
          if in_cluster cluster_id r
          then r ∷ read_records encode decode cluster_id lines
          else read_records encode decode cluster_id lines)
  unfolding read_records
  read_records-cons cluster_id r line lines l = rw (l.trimmed, l.decodes) (ground (arith, l.solid))

  read_records-log :
      (cluster_id torn : Text) (rs : List AuditRecord) (h : Codable rs)
      → IsTorn torn
      → read_records encode decode cluster_id (split_on b'\n' (log rs h ++ torn))
        ≡ filter (in_cluster cluster_id) rs
  unfolding log
  read_records-log cluster_id torn [] h t =
      rw (split_on-Lacks _ torn t.0) (read_records-torn cluster_id torn t)
  read_records-log cluster_id torn (r ∷ rs) ((line, l), h) t =
      rw
        (
          append_assoc line (b'\n' ∷ log rs h) torn,
          split_on-append b'\n' line (log rs h ++ torn) l.one_line,
        )
        (read_records-cons cluster_id r line _ l
          ∙ ground (arith, read_records-log cluster_id torn rs h t))

  -- Records that have a line each, appended to a file that does not exist yet, are all taken; and the
  -- list of the file is then those of the cluster, newest first, records of one time in the order
  -- of the calls, cut at the limit. A line that is torn off at the end of the file changes nothing.
  pub file_list-append_all :
      (s : LogFile) (rs : List AuditRecord) (torn cluster_id : Text) (limit : ℤ)
      → (trim_space s.path == []) ≡ false
      → s.content ≡ none
      → Codable rs
      → IsTorn torn
      → ((append_all s rs).1 ≡ true)
        × (file_list encode decode undisturbed
              (record s { content = some (bytes (append_all s rs).0.content ++ torn) })
              cluster_id
              limit
            ≡ some (
                take
                  (limit_or_default limit)
                  (sort_stable newer (filter (in_cluster cluster_id) rs))))
  unfolding file_list list_content
  file_list-append_all s rs torn cluster_id limit path fresh h t =
      let (done, content) = append_all-log s rs h path in
      (done, rw (content, fresh, read_records-log cluster_id torn rs h t))
