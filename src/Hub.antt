-- ===== src/Hub.antt =====
-- The tables of the hub database that the modelled operations read and write
-- (plugins/post-office-next/database/migrations). A table is the list of its rows in the order of
-- insertion. Identifiers, digests, free texts and instants are numbers, which the code only
-- compares; a column with a fixed vocabulary is a data type.
-- `review_messages` holds the `semantic_message_id` of the rows of `automatic_reviews`.
mod Rows
mod States
mod Catalogue
mod Mail
mod Aggregates
pub use States.*
pub use Rows.*
pub use Catalogue.*
pub use Mail.*
pub use Aggregates.*
use codex_post_office.Base.{ℕ, List}

pub record Hub : Type 0 where
  pub actors : List Actor
  pub capabilities : List Capability
  pub actions : List AuthorAction
  pub grants : List Grant
  pub projects : List Project
  pub mail_domains : List MailDomain
  pub packages : List SoftwarePackage
  pub package_versions : List PackageVersion
  pub package_interfaces : List PackageInterface
  pub interfaces : List Interface
  pub participants : List Participant
  pub cycles : List Cycle
  pub cycle_notes : List CycleNote
  pub workflows : List Workflow
  pub message_plans : List MessagePlan
  pub plans : List Plan
  pub tasks : List Task
  pub bindings : List Binding
  pub responses : List TaskResponse
  pub reviews : List TaskReview
  pub endpoints : List Endpoint
  pub mailboxes : List Mailbox
  pub messages : List Message
  pub attempts : List Attempt
  pub dispatches : List Dispatch
  pub bundles : List Bundle
  pub acknowledgements : List Acknowledgement
  pub decisions : List MessageDecision
  pub closures : List MessageClosure
  pub observations : List Observation
  pub reconciliation_plans : List ReconciliationPlan
  pub copies : List StorageCopy
  pub review_messages : List ℕ
  pub attention : List Attention
  pub receipts : List Receipt
  pub events : List Event
