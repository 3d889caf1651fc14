-- ===== src/Audit/Listing.antt =====
-- API.list and Service.List (handler.go, audit_service.go): who reads the audit log, and what.
use mathlib.Core.List.{Perm}
use native.Mathlib.Nat.{mod-eq_of_lt}
use dinchy.Prelude.{
  String, ◌^◌, ◌<◌, ◌≤◌, subst, ◌≡◌, refl, true, some, none, Option, List, keep_if, arith, inl, inr,
}
use dinchy.Errors.{ok}
use dinchy.Permission.{audit_logs_read}
use dinchy.Db.{AuditLogRow}
use dinchy.Db.AuditLogs.{is_listed, newest_first, list_audit_logs, take}
use dinchy.Db.AuditLogs.Order.{IsNewestFirst, newest_first-Perm, newest_first-IsNewestFirst}
use dinchy.World.{Env, World}
use dinchy.World.Effects.{select}
use dinchy.World.Inversion.{Result-cases}
use dinchy.Session.{Principal, has_permission}
use dinchy.Events.{Record, EventCodec}
use dinchy.Audit.{
  ListInput, null_uuid, logs_from_rows, list_params, int32, query_rows, list_logs, api_list,
}

module _ (codec : EventCodec) (env : Env) where
  list_logs-cases :
      (input : ListInput) (w : World) (out : List (Record codec.Map))
      → (list_logs codec env input w).0 ≡ ok out
      → (actor : Option String) × (null_uuid codec input.actor_user_id ≡ ok actor)
        × (logs_from_rows codec (
              take (int32 codec env input.limit) (
                newest_first env.before
                  (keep_if (is_listed (list_params codec env input actor)) w.db.audit_logs)))
            ≡ ok out)
        × (int32 codec env input.limit < 2 ^ 31)
  unfolding list_logs query_rows select list_audit_logs
  list_logs-cases input w out h = elim (Result-cases (null_uuid codec input.actor_user_id)) [
    | inl (actor, parsed) ↦ (actor, parsed, ground arith, ground arith)
    | inr (e, malformed) ↦ absurd (ground arith)
  ]

  api_list-cases :
      (principal : Option Principal) (input : ListInput) (w : World) (out : List (Record codec.Map))
      → (api_list codec env principal input w).0 ≡ ok out
      → (p : Principal) × (principal ≡ some p)
        × (has_permission p.permissions audit_logs_read ≡ true)
        × ((list_logs codec env input w).0 ≡ ok out)
  unfolding api_list
  api_list-cases none input w out h = absurd (ground arith)
  api_list-cases (some p) input w out h = (p, refl, ground arith, ground arith)

  -- Audit logs are returned only to a principal with the permission to read them. They are the
  -- first of the stored rows that pass every filter, the filter on the time with rows at that time
  -- included, when these are put in an order in which each is at least as new as the next. How many
  -- is the limit as an int32, which is not negative then, and is the limit itself if that is at most
  -- the 200 of the API.
  pub api_list_ok :
      (principal : Option Principal) (input : ListInput) (w : World) (out : List (Record codec.Map))
      → (api_list codec env principal input w).0 ≡ ok out
      → (p : Principal) × (actor : Option String) × (rows : List AuditLogRow) × (principal ≡ some p)
        × (has_permission p.permissions audit_logs_read ≡ true)
        × (null_uuid codec input.actor_user_id ≡ ok actor)
        × Perm rows (keep_if (is_listed (list_params codec env input actor)) w.db.audit_logs)
        × IsNewestFirst rows
        × (logs_from_rows codec (take (int32 codec env input.limit) rows) ≡ ok out)
        × (int32 codec env input.limit < 2 ^ 31)
        × (input.limit ≤ 200 → logs_from_rows codec (take input.limit rows) ≡ ok out)
  api_list_ok principal input w out h =
      let (p, present, granted, listed) = api_list-cases principal input w out h in
      let (actor, parsed, returned, fits) = list_logs-cases input w out listed in
      let kept = keep_if (is_listed (list_params codec env input actor)) w.db.audit_logs in
      (
        p,
        actor,
        newest_first env.before kept,
        present,
        granted,
        parsed,
        newest_first-Perm env.before kept,
        newest_first-IsNewestFirst env.before kept,
        returned,
        fits,
        λ small.
            subst (λ n. logs_from_rows codec (take n (newest_first env.before kept)) ≡ ok out)
              (mod-eq_of_lt {n = input.limit} {m = 2 ^ 32} (omega (arith, small))) returned,
      )
