-- ===== src/Enquiries.antt =====
-- app/services/enquiry_service.py and app/models/enquiry.py: the enquiries of the users, and the
-- answers of the staff.
pub mod Privacy
mod Tests
use metroflow_ai_backend.Common.{
  ℕ, zero, suc, ◌+◌, Bool, true, false, ◌&&◌, ◌||◌, Option, none, some, List, [], ◌∷◌, ◌++◌, Text,
  codes, select, length, page, order_by, clamp, at_least, ltb, ite, if◌then◌else◌, ℤ, pos,
  ℕ_discrete,
}
use metroflow_ai_backend.Common.Dict.{Dict, lookup, insert}
use metroflow_ai_backend.Alerts.{UserRole, admin, operator}
use metroflow_ai_backend.Notifications.Inbox.{Inbox, system}
use metroflow_ai_backend.Notifications.Inbox.Actions.{create_notification}
use metroflow_ai_backend.Users.{Profile}
use metroflow_ai_backend.Users.Auth.{has_role}

pub data EnquiryStatus : Type 0 where
  open_enquiry in_progress resolved : EnquiryStatus

unfoldable pub EnquiryStatus-discrete : Discrete EnquiryStatus
EnquiryStatus-discrete = hlevel

-- A row of `enquiries`, but for its id; a category is a text.
pub record Enquiry (User : Type 0) : Type 0 where
  pub user_id : User
  pub subject : Text
  pub category : Text
  pub message : Text
  pub status : EnquiryStatus
  pub admin_reply : Option Text
  pub resolved_by : Option User
  pub resolved_at : Option ℕ
  pub created_at : ℕ

-- EnquiryCreate, and EnquiryResolve
pub record EnquiryCreate : Type 0 where
  pub new_subject : Text
  pub new_category : Text
  pub new_message : Text

pub record EnquiryResolve : Type 0 where
  pub reply : Text
  pub new_status : EnquiryStatus

pub record EnquiryDb (User : Type 0) : Type 0 where
  pub enquiries : Dict ℕ (Enquiry User)
  pub next_id : ℕ
  pub inbox : Inbox User

-- What `get_enquiry_stats` returns.
pub record EnquiryStats : Type 0 where
  pub total : ℕ
  pub open_count : ℕ
  pub in_progress_count : ℕ
  pub resolved_count : ℕ

abbrev pub default_enquiries_limit : ℕ
default_enquiries_limit = 100

abbrev pub max_enquiries_limit : ℕ
max_enquiries_limit = 500

-- `role in (UserRole.ADMIN, UserRole.OPERATOR)`
abbrev pub is_staff : UserRole → Bool
is_staff role = has_role role (admin ∷ operator ∷ [])

abbrev pub has_status : EnquiryStatus → EnquiryStatus → Bool
has_status status s = ite (EnquiryStatus-discrete s status) true false

-- `if status:`
abbrev pub has_status_of : Option EnquiryStatus → EnquiryStatus → Bool
has_status_of none s = true
has_status_of (some status) s = has_status status s

-- `status_label`
abbrev pub status_label : EnquiryStatus → Text
status_label status = if has_status resolved status then codes "resolved" else codes "updated"

module _ {User : Type 0} (dec : Discrete User) where
  -- `Enquiry.user_id == current_user.id`
  abbrev pub is_of_user : User → Enquiry User → Bool
  is_of_user user e = ite (dec e.user_id user) true false

  -- The rows that a user may see.
  abbrev pub is_visible : Profile User → Enquiry User → Bool
  is_visible current e = is_staff current.role || is_of_user current.id e

  -- `ORDER BY created_at DESC`
  abbrev pub is_newer : ℕ × Enquiry User → ℕ × Enquiry User → Bool
  is_newer e f = ltb f.1.created_at e.1.created_at

  unfoldable pub list_enquiries :
      Profile User → Option EnquiryStatus → ℤ → ℤ → EnquiryDb User → List (ℕ × Enquiry User)
  list_enquiries current status limit offset db =
      page (clamp (some limit) default_enquiries_limit max_enquiries_limit) (at_least 0 offset) (
        order_by is_newer (
          select (λ e. has_status_of status e.1.status)
            (select (λ e. is_visible current e.1) db.enquiries)))

  unfoldable pub create_enquiry : ℕ → EnquiryCreate → User → EnquiryDb User → ℕ × EnquiryDb User
  create_enquiry now payload user db = (
    db.next_id,
    record db {
      enquiries =
          db.enquiries
          ++ (
            db.next_id,
            record {
              user_id = user;
              subject = payload.new_subject;
              category = payload.new_category;
              message = payload.new_message;
              status = open_enquiry;
              admin_reply = none;
              resolved_by = none;
              resolved_at = none;
              created_at = now;
            },
          )
            ∷ [];
      next_id = suc db.next_id;
    },
  )

  -- `get_enquiry`; none is the answer with status 404.
  unfoldable pub get_enquiry : ℕ → Profile User → EnquiryDb User → Option (Enquiry User)
  get_enquiry id current db = elim (lookup ℕ_discrete id db.enquiries) [
    | none ↦ none
    | some e ↦ if is_visible current e then some e else none
  ]

  -- The row of an answer.
  abbrev pub with_reply : ℕ → EnquiryResolve → User → Enquiry User → Enquiry User
  with_reply now payload by e = record e {
    admin_reply = some payload.reply;
    status = payload.new_status;
    resolved_by = some by;
    resolved_at = if has_status resolved payload.new_status then some now else none;
  }

  -- `resolve_enquiry`; none is the answer with status 404.
  unfoldable pub resolve_enquiry :
      ℕ → ℕ → EnquiryResolve → User → EnquiryDb User → Option (Enquiry User) × EnquiryDb User
  unfolding create_notification
  resolve_enquiry now id payload by db = elim (lookup ℕ_discrete id db.enquiries) [
    | none ↦ (none, db)
    | some e ↦
        let row = with_reply now payload by e in
        (
          some row,
          record db {
            enquiries = insert ℕ_discrete id row db.enquiries;
            inbox =
                (create_notification dec now system
                  (codes "Your enquiry \""
                    ++ (row.subject ++ (codes "\" was " ++ status_label payload.new_status)))
                  payload.reply (some row.user_id) none none db.inbox).1;
          },
        )
  ]

  abbrev pub count_of : EnquiryStatus → List (ℕ × Enquiry User) → ℕ
  count_of status rows = length (select (λ e. has_status status e.1.status) rows)

  unfoldable pub get_enquiry_stats : Profile User → EnquiryDb User → EnquiryStats
  get_enquiry_stats current db =
      let rows = select (λ e. is_visible current e.1) db.enquiries in
      record {
        total = count_of open_enquiry rows + count_of in_progress rows + count_of resolved rows;
        open_count = count_of open_enquiry rows;
        in_progress_count = count_of in_progress rows;
        resolved_count = count_of resolved rows;
      }
