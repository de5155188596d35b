-- ===== src/Audit/Store.antt =====
-- `FileAuditStore` and `memoryAuditStore` of auth_audit.go. The JSON codec of a record is a
-- parameter: `encode` is `json.Marshal`, `decode` is `json.Unmarshal` of one line.
pub mod Log
pub mod Torn
use go_rocketmq_dashboard.Base.{
  ℕ, zero, suc, ◌-◌, Bool, true, false, not, ◌||◌, Option, none, some, List, [], ◌∷◌, ◌++◌,
  if◌then◌else◌, ltb, leb, ◌==◌, nat_eq, text_eq, filter, take, drop, length,
}
use go_rocketmq_dashboard.Base.Int.{ℤ, pos, negsuc, lt_int}
use go_rocketmq_dashboard.Base.Sort.{sort_stable}
use go_rocketmq_dashboard.Base.Text.{Text, text, trim_space, split_on}
use go_rocketmq_dashboard.Audit.{
  AuditRecord, AuditStore, Context, FileOutcome, all_done, mkdir_fails, open_fails, sync_fails,
  write_fails,
}

-- A limit outside 1 to 200 becomes 100.
pub limit_or_default : ℤ → ℕ
limit_or_default (pos limit) = if limit == 0 || ltb 200 limit then 100 else limit
limit_or_default (negsuc _) = 100

-- The records of a cluster; the empty name stands for all of them.
pub in_cluster : Text → AuditRecord → Bool
in_cluster cluster_id r = cluster_id == [] || r.cluster_id == cluster_id

-- Newest first.
pub newer : AuditRecord → AuditRecord → Bool
newer a b = lt_int b.timestamp_unix_milli a.timestamp_unix_milli

-- The file, if there is one, and the path that was configured.
pub record LogFile : Type 0 where
  pub path : Text
  pub content : Option Text

abbrev pub bytes : Option Text → Text
bytes none = []
bytes (some s) = s

module _ (encode : AuditRecord → Option Text) (decode : Text → Option AuditRecord) where
  write_line : FileOutcome → LogFile → Text → LogFile × Bool
  write_line all_done s line = (record s { content = some (bytes s.content ++ line) }, true)
  write_line sync_fails s line = (record s { content = some (bytes s.content ++ line) }, false)
  write_line (write_fails n) s line =
      (record s { content = some (bytes s.content ++ take n line) }, false)
  write_line mkdir_fails s line = (s, false)
  write_line open_fails s line = (s, false)

  append_encoded : Context → LogFile → Option Text → LogFile × Bool
  unfolding write_line
  append_encoded c s none = (s, false)
  append_encoded c s (some line) = write_line c.file s (line ++ b'\n' ∷ [])

  -- `FileAuditStore.Append`
  pub file_append : Context → LogFile → AuditRecord → LogFile × Bool
  unfolding append_encoded
  file_append c s r =
      if c.cancelled
      then (s, false)
      else if trim_space s.path == []
      then (s, false)
      else append_encoded c s (encode r)

  decoded : Text → Option AuditRecord → List AuditRecord → List AuditRecord
  decoded cluster_id none rest = rest
  decoded cluster_id (some r) rest = if in_cluster cluster_id r then r ∷ rest else rest

  -- The loop over the lines: a line that is empty or cannot be decoded is passed over.
  pub read_records : Text → List Text → List AuditRecord
  unfolding decoded
  read_records cluster_id [] = []
  read_records cluster_id (line ∷ lines) =
      let rest = read_records cluster_id lines in
      if trim_space line == [] then rest else decoded cluster_id (decode (trim_space line)) rest

  -- `FileAuditStore.List`; of the outcomes of the file operations only the opening counts.
  pub list_content : Text → ℤ → Option Text → List AuditRecord
  list_content cluster_id limit none = []
  list_content cluster_id limit (some s) =
      let records = sort_stable newer (read_records cluster_id (split_on b'\n' s)) in
      take (limit_or_default limit) records

  pub file_list : Context → LogFile → Text → ℤ → Option (List AuditRecord)
  unfolding list_content
  file_list c s cluster_id limit =
      if c.cancelled
      then none
      else elim c.file [ open_fails ↦ none | _ ↦ some (list_content cluster_id limit s.content) ]

  abbrev pub file_audit_store : AuditStore
  file_audit_store = record { State = LogFile; append = file_append; list = file_list }

-- `memoryAuditStore`: in the order of the calls, the last ones where there are more than the limit.
unfoldable pub memory_append : Context → List AuditRecord → AuditRecord → List AuditRecord × Bool
memory_append c s r = (s ++ r ∷ [], true)

pub memory_list : Context → List AuditRecord → Text → ℤ → Option (List AuditRecord)
memory_list c s cluster_id limit =
    let records = filter (in_cluster cluster_id) s in
    some (drop (length records - limit_or_default limit) records)

abbrev pub memory_audit_store : AuditStore
memory_audit_store = record { State = List AuditRecord; append = memory_append; list = memory_list }
