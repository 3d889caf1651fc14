-- ===== src/Db/AuditLogs.antt =====
-- The statements of internal/platform/store/sqlcgen/audit.sql.go.
pub mod Order
use dinchy.Prelude.{
  ℕ, zero, suc, String, Bool, true, false, ◌&&◌, ◌||◌, not, Option, none, some, List, [], ◌∷◌, ◌++◌,
  any, keep_if, ltb, leb, ◌==◌, if◌then◌else◌,
}
use dinchy.Db.{Db, AuditLogRow}

-- id is the primary key
unfoldable pub insert_audit_log : AuditLogRow → Db → Option Db
insert_audit_log row db =
    if any (λ r. r.id == row.id) db.audit_logs
    then none
    else some (record db { audit_logs = db.audit_logs ++ row ∷ [] })

-- ListAuditLogsParams. The caller gives each filter and its value the same text.
pub record ListAuditLogsParams : Type 0 where
  pub category : String
  pub subcategory : String
  pub event_type : String
  pub actor_user_id_filter : String
  pub actor_user_id : Option String
  pub target_type : String
  pub target_id : String
  pub outcome : String
  pub before : Option ℕ
  pub limit : ℕ

abbrev pub filter_by : String → String → Bool
filter_by filter column = filter == "" || column == filter

-- `=` with a NULL on either side is not true
abbrev pub eq_nullable : Option String → Option String → Bool
eq_nullable (some a) (some b) = a == b
eq_nullable (some a) none = false
eq_nullable none b = false

abbrev pub is_created_before : Option ℕ → AuditLogRow → Bool
is_created_before none row = true
is_created_before (some before) row = leb row.created_at before

unfoldable pub is_listed : ListAuditLogsParams → AuditLogRow → Bool
is_listed p row =
    filter_by p.category row.category
    && filter_by p.subcategory row.subcategory
    && filter_by p.event_type row.event_type
    && (p.actor_user_id_filter == "" || eq_nullable row.actor_user_id p.actor_user_id)
    && filter_by p.target_type row.target_type
    && filter_by p.target_id row.target_id
    && filter_by p.outcome row.outcome
    && is_created_before p.before row

abbrev pub take {ℓ} : {A : Type ℓ} → ℕ → List A → List A
take zero xs = []
take (suc n) [] = []
take (suc n) (x ∷ xs) = x ∷ take n xs

-- ORDER BY created_at DESC, id DESC, where `before` is the order of UUIDs
module _ (before : String → String → Bool) where
  abbrev pub is_newer : AuditLogRow → AuditLogRow → Bool
  is_newer a b =
      ltb b.created_at a.created_at || (leb b.created_at a.created_at && before b.id a.id)

  unfoldable pub insert_newest : AuditLogRow → List AuditLogRow → List AuditLogRow
  insert_newest row [] = row ∷ []
  insert_newest row (r ∷ rows) =
      let rest = insert_newest row rows in if is_newer r row then r ∷ rest else row ∷ r ∷ rows

  unfoldable pub newest_first : List AuditLogRow → List AuditLogRow
  unfolding insert_newest
  newest_first [] = []
  newest_first (row ∷ rows) = insert_newest row (newest_first rows)

  unfoldable pub list_audit_logs : ListAuditLogsParams → Db → Option (List AuditLogRow)
  unfolding is_listed newest_first
  list_audit_logs p db = some (take p.limit (newest_first (keep_if (is_listed p) db.audit_logs)))
