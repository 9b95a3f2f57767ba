-- ===== src/Tests/Messages.antt =====
-- A message that is approved, sent, and approved again.
use dolphin_vc.Base.{◌≡◌, refl, none, some, [], ◌∷◌, find_where}
use dolphin_vc.Types.{OutreachStatus}
use dolphin_vc.Errors.{ok}
use dolphin_vc.Records.{empty_db, Outreach, Db}
use dolphin_vc.Outreach.Commands.{send_outreach}
use dolphin_vc.Outreach.Sending.{sending}
use dolphin_vc.Tests.Fixtures.{analyst}

abbrev message : Outreach
message = record {
  id = 9;
  org_id = 7;
  person_id = 3;
  opportunity_id = none;
  status = OutreachStatus.approved;
  subject = "Hello";
  body = "We liked your launch.";
  approved_by = some 1;
  sent_at = none;
  rejection_reason = none;
}

abbrev db : Db
db = record empty_db { outreach = message ∷ [] }

message_sent : (sending analyst 9 100 db).0 ≡ ok tt
unfolding send_outreach find_where
message_sent = refl

abbrev rejected : Outreach
rejected = record message { status = OutreachStatus.declined }
