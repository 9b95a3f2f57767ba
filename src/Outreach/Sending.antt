-- ===== src/Outreach/Sending.antt =====
-- Approval and sending of messages (backend/app/routers/operations.py).
use dolphin_vc.Base.{
  ℕ, ◌≡◌, refl, ◌∙◌, inl, inr, true, false, some, arith, ==_refl, find_where,
  find_where-update_where, Option-cases, update_where,
}
use dolphin_vc.Errors.{Result, ok, err}
use dolphin_vc.Session.{request}
use dolphin_vc.Auth.Model.{Principal}
use dolphin_vc.Records.{Outreach, Db, set_outreach}
use dolphin_vc.Outreach.Commands.{
  is_approved, owned_outreach, outreach_is, approve, mark_sent, approval_required, approve_outreach,
  send_outreach,
}

module _ (p : Principal) (id : ℕ) where
  abbrev pub sending : ℕ → Db → Result (Unit {0}) × Db
  sending now = request (send_outreach p id now)

  abbrev approving : Db → Result (Unit {0}) × Db
  approving = request (approve_outreach p id)

  -- A sending that succeeds found the message approved, and marked it as sent.
  sending_trace :
      (now : ℕ) (db : Db)
      → (sending now db).0 ≡ ok tt
      → (row : Outreach) × (find_where (owned_outreach p.org_id id) db.outreach ≡ some row)
        × (is_approved row.status ≡ true)
        × ((sending now db).1 ≡ set_outreach (update_where (outreach_is row.id) (mark_sent now)) db)
  unfolding send_outreach
  sending_trace now db h =
      elim (Option-cases (find_where (owned_outreach p.org_id id) db.outreach)) [
        | inl missing ↦ absurd (ground arith)
        | inr (row, found) ↦ (row, found, ground arith, ground arith)
      ]

  unapproved :
      (now : ℕ) (db : Db) (row : Outreach)
      → find_where (owned_outreach p.org_id id) db.outreach ≡ some row
      → is_approved row.status ≡ false
      → sending now db ≡ (err approval_required, db)
  unfolding send_outreach
  unapproved now db row found h = ground arith

  -- A message that was sent is not sent again by the next request: a second sending is refused and
  -- changes nothing.
  send_once :
      (now later : ℕ) (db : Db)
      → (sending now db).0 ≡ ok tt
      → sending later (sending now db).1 ≡ (err approval_required, (sending now db).1)
  send_once now later db h =
      let (row, found, approved, written) = sending_trace now db h in
      rw written (
        unapproved later (set_outreach (update_where (outreach_is row.id) (mark_sent now)) db)
          (mark_sent now row)
          (find_where-update_where (owned_outreach p.org_id id) (outreach_is row.id) (mark_sent now)
              db.outreach (λ x. ground arith)
            ∙ rw found (ground (arith, ==_refl row.id)))
          refl)

  approved_row :
      (db : Db) (row : Outreach)
      → find_where (owned_outreach p.org_id id) db.outreach ≡ some row
      → (approving db).1 ≡ set_outreach (update_where (outreach_is row.id) (approve p.user_id)) db
  unfolding approve_outreach
  approved_row db row found = ground arith

  sent :
      (now : ℕ) (db : Db) (row : Outreach)
      → find_where (owned_outreach p.org_id id) db.outreach ≡ some row
      → is_approved row.status ≡ true
      → (sending now db).0 ≡ ok tt
  unfolding send_outreach
  sent now db row found h = ground arith

  -- An approval is accepted in any state, also of a message that was sent or rejected: after it the
  -- message can be sent, whatever happened to it before.
  approval_reopens :
      (now : ℕ) (db : Db) (row : Outreach)
      → find_where (owned_outreach p.org_id id) db.outreach ≡ some row
      → (sending now (approving db).1).0 ≡ ok tt
  approval_reopens now db row found = rw (approved_row db row found) (
      sent now (set_outreach (update_where (outreach_is row.id) (approve p.user_id)) db)
        (approve p.user_id row)
        (find_where-update_where (owned_outreach p.org_id id) (outreach_is row.id)
            (approve p.user_id) db.outreach (λ x. ground arith)
          ∙ rw found (ground (arith, ==_refl row.id)))
        refl)
