-- ===== src/Audit/Store/Torn.antt =====
-- An interrupted write is followed by the next record on the same line.
use go_rocketmq_dashboard.Base.{
  ℕ, zero, suc, ◌≤◌, true, false, Option, none, some, [], ◌∷◌, ◌++◌, ◌==◌, ==_refl, nat_eq, text_eq,
  take, length, arith, ◌≡◌, refl, ap, All-append, append_assoc,
}
use go_rocketmq_dashboard.Base.Int.{ℤ}
use go_rocketmq_dashboard.Base.Sort.{sort_stable}
use go_rocketmq_dashboard.Base.Text.{
  Text, trim_space, trim_left, trim_right, split_on, Lacks, split_on-append,
}
use go_rocketmq_dashboard.Audit.{AuditRecord, Context, write_fails}
use go_rocketmq_dashboard.Audit.Store.{
  LogFile, bytes, limit_or_default, write_line, append_encoded, file_append, read_records, decoded,
  list_content, file_list,
}
use go_rocketmq_dashboard.Audit.Store.Log.{undisturbed}

-- A call whose write stops after `n` code points of the line.
abbrev pub interrupted : ℕ → Context
interrupted n = record { cancelled = false; file = write_fails n }

take-append_short : (n : ℕ) (xs ys : Text) → n ≤ length xs → take n (xs ++ ys) ≡ take n xs
take-append_short zero xs ys h = refl
take-append_short (suc n) [] ys h = absurd (omega arith)
take-append_short (suc n) (x ∷ xs) ys h = ap (◌∷◌ x) (take-append_short n xs ys (omega arith))

take-Lacks : (sep n : ℕ) (xs : Text) → Lacks sep xs → Lacks sep (take n xs)
take-Lacks sep zero xs h = tt
take-Lacks sep (suc n) [] h = tt
take-Lacks sep (suc n) (x ∷ xs) (h, t) = (h, take-Lacks sep n xs t)

take-nil : (n : ℕ) → take {A = AuditRecord} n [] ≡ []
take-nil zero = refl
take-nil (suc n) = refl

trim_space-nil : trim_space [] ≡ []
unfolding trim_space trim_left trim_right
trim_space-nil = refl

module _ (encode : AuditRecord → Option Text) (decode : Text → Option AuditRecord) where
  append_content :
      (s : LogFile) (r : AuditRecord) (line : Text) (c : Option Text)
      → s.content ≡ c
      → (trim_space s.path == []) ≡ false
      → encode r ≡ some line
      → file_append encode decode undisturbed s r
        ≡ (record s { content = some (bytes c ++ (line ++ b'\n' ∷ [])) }, true)
  unfolding file_append append_encoded write_line
  append_content s r line c e path f = rw path (rw (f, append_encoded) (rw e))

  append_torn :
      (s : LogFile) (r : AuditRecord) (line : Text) (n : ℕ)
      → s.content ≡ none
      → (trim_space s.path == []) ≡ false
      → encode r ≡ some line
      → n ≤ length line
      → file_append encode decode (interrupted n) s r
        ≡ (record s { content = some (take n line) }, false)
  unfolding file_append append_encoded write_line
  append_torn s r line n e path f h =
      rw path (rw (f, append_encoded) (rw (e, take-append_short n line (b'\n' ∷ []) h)))

  read_bad_line :
      (cluster_id bad : Text)
      → decode (trim_space bad) ≡ none
      → read_records encode decode cluster_id (bad ∷ [] ∷ []) ≡ []
  unfolding read_records decoded
  read_bad_line cluster_id bad h = rw (h, trim_space-nil, ==_refl {A = Text}) (ground arith)

  one_bad_line :
      (cluster_id torn line : Text)
      → decode (trim_space (torn ++ line)) ≡ none
      → Lacks b'\n' torn
      → Lacks b'\n' line
      → read_records encode decode cluster_id (split_on b'\n' (torn ++ (line ++ b'\n' ∷ []))) ≡ []
  unfolding split_on
  one_bad_line cluster_id torn line bad h h' =
      rw
        (
          ← append_assoc torn line (b'\n' ∷ []),
          split_on-append b'\n' (torn ++ line) [] (All-append _ torn line h h'),
        )
        (read_bad_line cluster_id (torn ++ line) bad)

  -- If a first write stops inside its line, the next record is taken, but on that line: where the two
  -- parts together do not decode, the list leaves out both, for every cluster and limit.
  pub append_after_torn :
      (s : LogFile) (first second : AuditRecord) (line line' cluster_id : Text) (n : ℕ) (limit : ℤ)
      → (trim_space s.path == []) ≡ false
      → s.content ≡ none
      → encode first ≡ some line
      → encode second ≡ some line'
      → n ≤ length line
      → Lacks b'\n' line
      → Lacks b'\n' line'
      → decode (trim_space (take n line ++ line')) ≡ none
      → let after =
          file_append encode decode undisturbed
            (file_append encode decode (interrupted n) s first).0
            second in
        (after.1 ≡ true) × (file_list encode decode undisturbed after.0 cluster_id limit ≡ some [])
  unfolding file_list list_content
  append_after_torn s first second line line' cluster_id n limit path fresh e e' short h h' bad =
      rw (append_torn s first line n fresh path e short) (
        rw
          (append_content (record s { content = some (take n line) }) second line'
            (some (take n line)) refl path e')
          (
            refl,
            rw (one_bad_line cluster_id (take n line) line' bad (take-Lacks b'\n' n line h) h')
                (unfold sort_stable in rw (take-nil (limit_or_default limit))),
          ))
