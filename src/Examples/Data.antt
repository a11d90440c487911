-- ===== src/Examples/Data.antt =====
-- A small hub, its callers, and a digest for the runs.
use codex_post_office.Base.{
  ℕ, ◌+◌, ◌*◌, ◌%◌, String, true, false, none, some, [], ◌∷◌, Json, null, num, str, truth, list,
  object, Items, no_items, item, Fields, no_fields, field, Result, ok, err,
}
use codex_post_office.Hub.{Hub, Actor, ActorKind, Capability, Status, Payload, project_payload}
use codex_post_office.Kernel.Events.Query.{Request}
use codex_post_office.Kernel.Authority.Call.{Call}
use codex_post_office.Kernel.Authority.Finalize.{Response}

abbrev pub mix : ℕ → ℕ → ℕ
mix a b = (a * 31 + b * 17 + 7) % 1000003

-- a digest of documents, for the runs only
unfoldable mutual
  pub digest : Json → ℕ
  digest null = 1
  digest (num n) = mix 2 n
  digest (str s) = 3
  digest (truth true) = 4
  digest (truth false) = 5
  digest (list xs) = mix 6 (digest_items xs)
  digest (object fs) = mix 7 (digest_fields fs)

  digest_items : Items → ℕ
  digest_items no_items = 8
  digest_items (item x xs) = mix (digest x) (digest_items xs)

  digest_fields : Fields → ℕ
  digest_fields no_fields = 9
  digest_fields (field k x fs) = mix (digest x) (digest_fields fs)

abbrev pub empty_hub : Hub
empty_hub = record {
  actors = [];
  capabilities = [];
  actions = [];
  grants = [];
  projects = [];
  mail_domains = [];
  packages = [];
  package_versions = [];
  package_interfaces = [];
  interfaces = [];
  participants = [];
  cycles = [];
  cycle_notes = [];
  workflows = [];
  message_plans = [];
  plans = [];
  tasks = [];
  bindings = [];
  responses = [];
  reviews = [];
  endpoints = [];
  mailboxes = [];
  messages = [];
  attempts = [];
  dispatches = [];
  bundles = [];
  acknowledgements = [];
  decisions = [];
  closures = [];
  observations = [];
  reconciliation_plans = [];
  copies = [];
  review_messages = [];
  attention = [];
  receipts = [];
  events = [];
}

abbrev pub author : Actor
author = record {
  actor_id = 1;
  actor_kind = ActorKind.human;
  role = "author";
  status = Status.active;
}

abbrev pub capability : Capability
capability = record {
  capability_id = 2;
  actor_id = 1;
  secret_sha256 = 3;
  allowed_operations = "project.planCreate" ∷ [];
  status = Status.active;
  expires_at = none;
}

abbrev pub author_hub : Hub
author_hub = record empty_hub { actors = author ∷ []; capabilities = capability ∷ [] }

-- a request of the author's, authorised by their action 5
abbrev pub request : String → String → ℕ → Request
request operation kind id = record {
  operation = operation;
  request_id = 4;
  actor_id = 1;
  actor_kind = "HUMAN";
  actor_role = "author";
  capability_id = 2;
  authority_grant_id = none;
  exact_author_action_id = some 5;
  aggregate_type = kind;
  aggregate_id = id;
  expected_version = some 0;
  expected_root = none;
  document = num id;
  scope_json = 6;
}

abbrev pub call : Request → Call
call r = record {
  request = r;
  capability = capability;
  request_hash = 7;
  recorded_at = 100;
  checked_at = 100;
  fresh = λ n. 1000 + n;
}

abbrev pub project_plan : Payload
project_plan = project_payload (record {
  project_id = 20;
  project_code = 21;
  display_name = 22;
  kind = 23;
  local_project_root = 24;
  local_cas_root = 25;
  local_backup_root = 26;
  policy_root = none;
  domains = 30 ∷ 31 ∷ [];
})

abbrev pub hub_of : {A : Type 0} → Result (A × Hub) → Hub
hub_of (ok (a, h)) = h
hub_of (err e) = empty_hub

abbrev pub value_of : {A : Type 0} → A → Result (A × Hub) → A
value_of a (ok (b, h)) = b
value_of a (err e) = a

abbrev pub no_response : Response
no_response = record {
  before_root = 0;
  after_root = 0;
  aggregate_version = 0;
  created_ids = [];
  event_id = 0;
  receipt_id = 0;
  request_sha256 = 0;
}
