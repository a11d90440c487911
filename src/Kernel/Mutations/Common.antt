-- ===== src/Kernel/Mutations/Common.antt =====
-- What the handlers share: lookups by key, and the gate that opens every handler.
use codex_post_office.Base.{
  ℕ, String, Bool, false, ◌&&◌, Option, none, some, List, [], ◌∷◌, find, update, ◌==◌, raised, Code,
}
use codex_post_office.Hub.{
  Hub, Task, Project, SoftwarePackage, Endpoint, Plan, Scope, Cycle, Message, Mailbox,
}
use codex_post_office.Kernel.Transaction.{Tx, require}
use codex_post_office.Kernel.Events.Query.{Request, aggregate_matches}

abbrev pub task_of : Hub → ℕ → Option Task
task_of h id = find (λ (t : Task). t.task_id == id) h.tasks

abbrev pub project_of : Hub → ℕ → Option Project
project_of h id = find (λ (p : Project). p.project_id == id) h.projects

abbrev pub package_of : Hub → ℕ → Option SoftwarePackage
package_of h id = find (λ (p : SoftwarePackage). p.package_id == id) h.packages

abbrev pub endpoint_of : Hub → ℕ → Option Endpoint
endpoint_of h id = find (λ (e : Endpoint). e.endpoint_id == id) h.endpoints

abbrev pub plan_of : Hub → ℕ → Option Plan
plan_of h id = find (λ (p : Plan). p.plan_id == id) h.plans

abbrev pub holds {ℓ} : {A : Type ℓ} → (A → Bool) → Option A → Bool
holds test none = false
holds test (some a) = test a

abbrev pub singleton : Option ℕ → List ℕ
singleton none = []
singleton (some a) = a ∷ []

-- `_require_aggregate`
abbrev pub require_aggregate : Request → String → ℕ → ℕ → ℕ → Tx (Unit {0})
require_aggregate r kind id version root =
    require (λ _. aggregate_matches r kind id version root) (raised Code.concurrency_conflict)

abbrev pub facts : List ℕ → List ℕ → List ℕ → List ℕ → Scope
facts projects tasks packages domains = record {
  project_ids = projects;
  task_ids = tasks;
  package_ids = packages;
  scope_domains = domains;
}

-- no `event_link`
abbrev pub no_link : ℕ → Hub → Hub
no_link event h = h

abbrev pub cycle_of : Hub → ℕ → Option Cycle
cycle_of h id = find (λ (c : Cycle). c.cycle_id == id) h.cycles

abbrev pub message_of : Hub → ℕ → Option Message
message_of h id = find (λ (m : Message). m.message_id == id) h.messages

abbrev pub generation_of : Hub → ℕ → ℕ → Option Mailbox
generation_of h id generation =
    find (λ (m : Mailbox). m.mailbox_id == id && m.generation == generation) h.mailboxes

-- The start of the handlers: the aggregate of the request is the one that the parameters name.
abbrev pub require_id : Request → ℕ → Tx (Unit {0})
require_id r id = require (λ _. r.aggregate_id == id) (raised Code.concurrency_conflict)

-- the draw of a handler's first identifier
abbrev pub own_draw : ℕ
own_draw = 3

abbrev pub is_message : ℕ → Message → Bool
is_message id m = m.message_id == id

abbrev pub set_message : ℕ → (Message → Message) → Hub → Hub
set_message id change h = record h { messages = update (is_message id) change h.messages }
