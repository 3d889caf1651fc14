-- ===== src/Db/AuditLogs/Order.antt =====
-- ListAuditLogs (audit.sql.go): what its order and its limit keep.
use mathlib.Core.List.{Perm}
use mathlib.Core.List.Perm
use dinchy.Prelude.{
  ℕ, ◌≤◌, String, Bool, ◌≡◌, true, false, List, [], ◌∷◌, All, arith, Bool-cases, inl, inr,
}
use dinchy.Db.{AuditLogRow}
use dinchy.Db.AuditLogs.{is_newer, insert_newest, newest_first}

-- Each row is at least as new as the next.
abbrev pub IsNewestFirst : List AuditLogRow → Type 0
IsNewestFirst [] = Unit
IsNewestFirst (a ∷ rows) = All (λ b. b.created_at ≤ a.created_at) rows × IsNewestFirst rows

All-le :
    (a b : ℕ) (rows : List AuditLogRow)
    → All (λ r. r.created_at ≤ a) rows
    → a ≤ b
    → All (λ r. r.created_at ≤ b) rows
All-le a b [] h le = tt
All-le a b (r ∷ rows) (hr, h) le = (omega arith, All-le a b rows h le)

module _ (before : String → String → Bool) where
  insert_newest-All {κ} :
      (P : AuditLogRow → Type κ) (row : AuditLogRow) (rows : List AuditLogRow)
      → P row
      → All P rows
      → All P (insert_newest before row rows)
  unfolding insert_newest
  insert_newest-All P row [] p h = (p, tt)
  insert_newest-All P row (r ∷ rows) p (hr, h) = elim (Bool-cases (is_newer before r row)) [
    | inl newer ↦ rw newer (hr, insert_newest-All P row rows p h)
    | inr older ↦ rw older (p, (hr, h))
  ]

  newer-le : (r row : AuditLogRow) → is_newer before r row ≡ true → row.created_at ≤ r.created_at
  newer-le r row h = ground arith

  older-le : (r row : AuditLogRow) → is_newer before r row ≡ false → r.created_at ≤ row.created_at
  older-le r row h = ground arith

  insert_newest-IsNewestFirst :
      (row : AuditLogRow) (rows : List AuditLogRow)
      → IsNewestFirst rows
      → IsNewestFirst (insert_newest before row rows)
  unfolding insert_newest
  insert_newest-IsNewestFirst row [] h = (tt, tt)
  insert_newest-IsNewestFirst row (r ∷ rows) (hr, h) = elim (Bool-cases (is_newer before r row)) [
    | inl newer ↦ rw newer (
      insert_newest-All (λ b. b.created_at ≤ r.created_at) row rows (newer-le r row newer) hr,
      insert_newest-IsNewestFirst row rows h,
    )
    | inr older ↦ rw older (
      (older-le r row older, All-le r.created_at row.created_at rows hr (older-le r row older)),
      (hr, h),
    )
  ]

  pub newest_first-IsNewestFirst :
      (rows : List AuditLogRow) → IsNewestFirst (newest_first before rows)
  unfolding newest_first
  newest_first-IsNewestFirst [] = tt
  newest_first-IsNewestFirst (r ∷ rows) =
      insert_newest-IsNewestFirst r (newest_first before rows) (newest_first-IsNewestFirst rows)

  insert_newest-Perm :
      (row : AuditLogRow) (rows : List AuditLogRow)
      → Perm (insert_newest before row rows) (row ∷ rows)
  unfolding insert_newest
  insert_newest-Perm row [] = Perm.refl (row ∷ [])
  insert_newest-Perm row (r ∷ rows) = elim (Bool-cases (is_newer before r row)) [
    | inl newer ↦
        rw newer (Perm.trans (Perm.cons r (insert_newest-Perm row rows)) (Perm.swap row r rows))
    | inr older ↦ rw older (Perm.refl (row ∷ r ∷ rows))
  ]

  pub newest_first-Perm : (rows : List AuditLogRow) → Perm (newest_first before rows) rows
  unfolding newest_first
  newest_first-Perm [] = Perm.refl []
  newest_first-Perm (r ∷ rows) =
      Perm.trans (insert_newest-Perm r (newest_first before rows))
        (Perm.cons r (newest_first-Perm rows))
