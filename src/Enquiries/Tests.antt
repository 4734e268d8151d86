-- ===== src/Enquiries/Tests.antt =====
-- Enquiries at concrete inputs.
use metroflow_ai_backend.Common.{ℕ, ◌≡◌, refl, true, none, [], codes, pos, ℕ_discrete, length}
use metroflow_ai_backend.Common.Dict.{lookup, insert}
use metroflow_ai_backend.Alerts.{UserRole, operator, passenger}
use metroflow_ai_backend.Notifications.Inbox.Actions.{create_notification}
use metroflow_ai_backend.Users.{Profile}
use metroflow_ai_backend.Users.Auth.{UserRole-discrete}
use metroflow_ai_backend.Enquiries.{
  EnquiryStatus-discrete, resolved, EnquiryCreate, EnquiryResolve, EnquiryDb, list_enquiries,
  create_enquiry, get_enquiry, resolve_enquiry, get_enquiry_stats,
}
use metroflow_ai_backend.Enquiries.Privacy
use metroflow_ai_backend.Enquiries.Privacy.{only_of}

program : Unit {0}
unfolding lookup insert ℕ_discrete UserRole-discrete EnquiryStatus-discrete create_notification
    list_enquiries create_enquiry get_enquiry resolve_enquiry get_enquiry_stats
program = tt

abbrev person : ℕ → UserRole → Profile ℕ
person id role = record {
  id = id;
  email = none;
  full_name = codes "Ann";
  username = none;
  phone = none;
  avatar_url = none;
  role = role;
  is_active = true;
}

abbrev empty_db : EnquiryDb ℕ
empty_db = record {
  enquiries = [];
  next_id = 1;
  inbox = record { notifications = []; read_states = []; next_id = 1; notices = [] };
}

abbrev payload : EnquiryCreate
payload = record {
  new_subject = codes "Lost bag";
  new_category = codes "lost_and_found";
  new_message = codes "A blue bag";
}

abbrev two_asked : EnquiryDb ℕ
two_asked =
    (create_enquiry ℕ_discrete 20 payload 8 (create_enquiry ℕ_discrete 10 payload 7 empty_db).1).1

abbrev answer : EnquiryResolve
answer = record { reply = codes "Found"; new_status = resolved }

abbrev resolved_db : EnquiryDb ℕ
resolved_db = (resolve_enquiry ℕ_discrete 30 1 answer 9 two_asked).1

counted :
    get_enquiry_stats ℕ_discrete (person 9 operator) resolved_db
    ≡ record { total = 2; open_count = 1; in_progress_count = 0; resolved_count = 1 }
unfolding program
counted = refl

informed : length resolved_db.inbox.notifications ≡ 1
unfolding program
informed = refl

enquiries_private_example :
    (list_enquiries ℕ_discrete
        (person 7 passenger)
        none
        (pos 10)
        (pos 0)
        (only_of ℕ_discrete 7 resolved_db)
      ≡ list_enquiries ℕ_discrete (person 7 passenger) none (pos 10) (pos 0) resolved_db)
    × (get_enquiry_stats ℕ_discrete (person 7 passenger) (only_of ℕ_discrete 7 resolved_db)
        ≡ get_enquiry_stats ℕ_discrete (person 7 passenger) resolved_db)
    × (get_enquiry ℕ_discrete 2 (person 7 passenger) (only_of ℕ_discrete 7 resolved_db)
        ≡ get_enquiry ℕ_discrete 2 (person 7 passenger) resolved_db)
unfolding program
enquiries_private_example =
    Privacy.enquiries_private ℕ_discrete (person 7 passenger) none (pos 10) (pos 0) 2 resolved_db
      refl (refl, (refl, tt))
