-- ===== src/Outreach/Commands.antt =====
-- `approve_outreach`, `send_outreach` and `reject_outreach` of backend/app/routers/operations.py.
use dolphin_vc.Base.{
  ℕ, String, Bool, true, false, not, ◌&&◌, Option, some, ◌==◌, find_where, update_where,
}
use dolphin_vc.Types.{OutreachStatus}
use dolphin_vc.Errors.{AppError, ErrorCode, app_error, not_found_error}
use dolphin_vc.Session.{Tx, query, modify, commit, or_raise, raise_if, ◌>>=◌, ◌>>◌}
use dolphin_vc.Auth.Model.{Principal}
use dolphin_vc.Records.{Outreach, Db, set_outreach}

abbrev pub is_approved : OutreachStatus → Bool
is_approved OutreachStatus.approved = true
is_approved _ = false

abbrev pub outreach_is : ℕ → Outreach → Bool
outreach_is id row = row.id == id

abbrev pub owned_outreach : ℕ → ℕ → Outreach → Bool
owned_outreach org_id id row = outreach_is id row && row.org_id == org_id

-- `_outreach`
unfoldable get_outreach : ℕ → ℕ → Tx Db Outreach
get_outreach org_id id = do
  found ← query (λ db. find_where (owned_outreach org_id id) db.outreach)
  or_raise found (not_found_error "Outreach was not found.")

abbrev pub approve : Option ℕ → Outreach → Outreach
approve user_id row = record row { status = OutreachStatus.approved; approved_by = user_id }

abbrev pub mark_sent : ℕ → Outreach → Outreach
mark_sent now row = record row { status = OutreachStatus.sent; sent_at = some now }

abbrev decline : String → Outreach → Outreach
decline reason row = record row { status = OutreachStatus.declined; rejection_reason = some reason }

abbrev save : ℕ → (Outreach → Outreach) → Db → Db
save id g = set_outreach (update_where (outreach_is id) g)

unfoldable pub approve_outreach : Principal → ℕ → Tx Db (Unit {0})
unfolding get_outreach
approve_outreach principal id = do
  row ← get_outreach principal.org_id id
  modify (save row.id (approve principal.user_id))
  commit

abbrev pub approval_required : AppError
approval_required =
    app_error ErrorCode.unprocessable "Outreach must be approved before sending." 422

unfoldable pub send_outreach : Principal → ℕ → ℕ → Tx Db (Unit {0})
unfolding get_outreach
send_outreach principal id now = do
  row ← get_outreach principal.org_id id
  raise_if (not (is_approved row.status)) approval_required
  modify (save row.id (mark_sent now))
  commit

unfoldable reject_outreach : Principal → ℕ → String → Tx Db (Unit {0})
unfolding get_outreach
reject_outreach principal id reason = do
  row ← get_outreach principal.org_id id
  modify (save row.id (decline reason))
  commit
