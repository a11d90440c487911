-- ===== src/Kernel/Mutations/Domains.antt =====
-- project.update with new mail domains, when a mailbox or a message names a domain of the project.
use mathlib.Core.Path.{subst}
use mathlib.Core.List.{Memᴰ}
use codex_post_office.Base.{
  any-Mem, ℕ, ◌≡◌, found-some, refl, Bool, true, false, not, ◌&&◌, ◌||◌, Option, none, some, List,
  [], ◌∷◌, Json, any, find, found, ◌==◌, Bool-cases, inl, inr, Failure, integrity_error, is_ok,
  arith,
}
use codex_post_office.Hub.{Hub, MailDomain, Mailbox, Message, Project, Scope, AuthorAction}
use codex_post_office.Kernel.Transaction.{Tx, ◌>>=◌, require, row}
use codex_post_office.Kernel.Grows.{reading-ok}
use codex_post_office.Kernel.Steps.{
  Keeps, Keeps-pure, Keeps-raise, Keeps-reading, Keeps-modify, Keeps-bind, Gives, Blocked,
  Blocked-here, Blocked-later, Blocked-Gives,
}
use codex_post_office.Kernel.Authority.Call.{Call}
use codex_post_office.Kernel.Authority.Basis.{
  retain_action, prepare_action, prepare_grant, basis_by, prepare_mutation_authority,
}
use codex_post_office.Kernel.Mutations.Common.{project_of}
use codex_post_office.Kernel.Mutations.Projects.{
  change, is_project, owned_by, domains_referenced, replace_domains, set_name, set_policy,
  project_change, project_mutation,
}

-- The tables that the reference test reads.
abbrev domain_tables : Hub → List MailDomain × (List Mailbox × List Message)
domain_tables h = (h.mail_domains, (h.mailboxes, h.messages))

abbrev names_one : ℕ → List MailDomain → ℕ → Bool
names_one id ds domain = any (λ d. owned_by id d && d.mail_domain == domain) ds

-- A mailbox or a message names a domain of the project.
abbrev Referenced : ℕ → List MailDomain × (List Mailbox × List Message) → Type 0
Referenced id (ds, (ms, xs)) =
    (any (λ m. names_one id ds m.mail_domain) ms || any (λ m. names_one id ds m.mail_domain) xs)
    ≡ true

Keeps-retain :
    (c : Call) (id : ℕ) (o : Option AuthorAction) → Keeps domain_tables (retain_action c id o)
unfolding retain_action
Keeps-retain c id none = Keeps-modify _ _ (λ h. refl)
Keeps-retain c id (some a) = Keeps-reading _ _

Keeps-basis_by :
    (c : Call) (facts : Scope) (action grant : Option ℕ)
    → Keeps domain_tables (basis_by c facts action grant)
unfolding basis_by prepare_action prepare_grant
Keeps-basis_by c facts none none = Keeps-raise _ _
Keeps-basis_by c facts none (some g) =
    Keeps-bind _ _ _ (Keeps-reading _ _)
      λ _. Keeps-bind _ _ _ (Keeps-reading _ _) λ _. Keeps-pure _ _
Keeps-basis_by c facts (some a) none = Keeps-bind _ _ _ (Keeps-reading _ _) λ _.
    Keeps-bind _ _ _ (Keeps-reading _ _)
      λ r. Keeps-bind _ _ _ (Keeps-retain c a r) λ _. Keeps-pure _ _
Keeps-basis_by c facts (some a) (some g) = Keeps-raise _ _

Keeps-prepare :
    (c : Call) (facts : Scope) → Keeps domain_tables (prepare_mutation_authority c facts)
unfolding prepare_mutation_authority
Keeps-prepare c facts = Keeps-basis_by c facts _ _

set_name-tables :
    (id : ℕ) (o : Option ℕ) (h : Hub) → domain_tables (set_name id o h) ≡ domain_tables h
set_name-tables id none h = refl
set_name-tables id (some n) h = refl

set_policy-tables :
    (id : ℕ) (o : Option ℕ) (h : Hub) → domain_tables (set_policy id o h) ≡ domain_tables h
set_policy-tables id none h = refl
set_policy-tables id (some n) h = refl

deletion-Blocked :
    (id : ℕ) (f : Unit {0} → Tx (Unit {0}))
    → Blocked domain_tables
        (Referenced id)
        (require (λ h. not (domains_referenced id h)) integrity_error >>= f)
unfolding domains_referenced ◌>>=◌
deletion-Blocked id f = record { at = λ h clash. rw clash refl }

replace_domains-Blocked :
    (id : ℕ) (ds : List ℕ) → Blocked domain_tables (Referenced id) (replace_domains id (some ds))
unfolding replace_domains
replace_domains-Blocked id ds =
    Blocked-later _ _ _ _ (Keeps-reading _ _)
      λ _. Blocked-later _ _ _ _ (Keeps-reading _ _) λ _. deletion-Blocked id _

project_change-Blocked :
    (p : Project) (name policy : Option ℕ) (ds : List ℕ)
    → Blocked domain_tables (Referenced p.project_id) (
        project_change p
          (change (record { display_name = name; policy_root = policy; domains = some ds })))
unfolding project_change
project_change-Blocked p name policy ds = Blocked-later _ _ _ _ (Keeps-reading _ _) λ _.
    Blocked-later _ _ _ _ (Keeps-modify _ _ (set_name-tables p.project_id name)) λ _.
      Blocked-later _ _ _ _ (Keeps-modify _ _ (set_policy-tables p.project_id policy))
        λ _. Blocked-here _ _ _ _ (replace_domains-Blocked p.project_id ds)

find-id :
    (id : ℕ) (ps : List Project) (p : Project)
    → find (is_project id) ps ≡ some p
    → p.project_id ≡ id
find-id id [] p e = absurd (ground arith)
find-id id (o ∷ ps) p e = elim (Bool-cases (is_project id o)) [
  | inl mine ↦ ground (arith, mine)
  | inr other ↦ find-id id ps p (ground (arith, other))
]

project-Gives :
    (id : ℕ) (x : Failure) → Gives (λ p. p.project_id ≡ id) (row (λ h. project_of h id) x)
project-Gives id x = record {
  at = λ h p g e.
      let (q, s) = reading-ok (λ o. found (project_of o id) x) h e in
      find-id id h.projects p (found-some _ x p q);
}

-- A mail domain of the project is the one of a mailbox or of a message.
pub data IsInUse (id : ℕ) (h : Hub) : Type 0 where
  by_mailbox :
      (d : MailDomain) (m : Mailbox)
      → Memᴰ d h.mail_domains
      → d.project_id ≡ id
      → Memᴰ m h.mailboxes
      → m.mail_domain ≡ d.mail_domain
      → IsInUse id h
  by_message :
      (d : MailDomain) (m : Message)
      → Memᴰ d h.mail_domains
      → d.project_id ≡ id
      → Memᴰ m h.messages
      → m.mail_domain ≡ d.mail_domain
      → IsInUse id h

named-by :
    (id domain : ℕ) (h : Hub) (d : MailDomain)
    → Memᴰ d h.mail_domains
    → d.project_id ≡ id
    → domain ≡ d.mail_domain
    → names_one id h.mail_domains domain ≡ true
named-by id domain h d m own same =
    any-Mem (λ o. owned_by id o && o.mail_domain == domain) d h.mail_domains m
      (ground (arith, own, same))

in_use-Referenced : (id : ℕ) (h : Hub) → IsInUse id h → Referenced id (domain_tables h)
in_use-Referenced id h (by_mailbox d m in_domains own in_mailboxes same) =
    let found =
      any-Mem (λ o. names_one id h.mail_domains o.mail_domain) m h.mailboxes in_mailboxes
        (named-by id m.mail_domain h d in_domains own same) in
    ground (arith, found)
in_use-Referenced id h (by_message d m in_domains own in_messages same) =
    let found =
      any-Mem (λ o. names_one id h.mail_domains o.mail_domain) m h.messages in_messages
        (named-by id m.mail_domain h d in_domains own same) in
    ground (arith, found)

-- project.update with a list of mail domains never succeeds for a project one of whose mail domains a
-- mailbox or a message is in, whatever the new list is, also one that keeps this domain.
pub project_mutation-referenced :
    (sha256_json : Json → ℕ) (c : Call) (id : ℕ) (name policy : Option ℕ) (ds : List ℕ) (h : Hub)
    → IsInUse id h
    → is_ok (
        project_mutation sha256_json c id
          (change (record { display_name = name; policy_root = policy; domains = some ds }))
          h)
      ≡ false
unfolding project_mutation domains_referenced
project_mutation-referenced sha256_json c id name policy ds h in_use =
    (Blocked-Gives domain_tables (Referenced id) _ _ _ (project-Gives id _) (Keeps-reading _ _)
        λ p same. Blocked-later _ _ _ _ (Keeps-reading _ _) λ _.
          Blocked-later _ _ _ _ (Keeps-reading _ _) λ _.
            Blocked-later _ _ _ _ (Keeps-reading _ _) λ _.
              Blocked-later _ _ _ _ (Keeps-prepare c _) λ _. Blocked-here _ _ _ _ (
                subst
                  (λ i. Blocked domain_tables (Referenced i) (
                    project_change p (
                      change
                        (record { display_name = name; policy_root = policy; domains = some ds }))))
                  same (project_change-Blocked p name policy ds))).at
      h (in_use-Referenced id h in_use)
