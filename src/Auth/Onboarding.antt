-- ===== src/Auth/Onboarding.antt =====
-- services/auth-service/app/services/onboarding.py and events.py
pub mod Assignment
use back_end.Prelude.{
  ℕ, String, Bool, true, false, Option, none, some, List, [], ◌∷◌, ◌==◌, string_eq, if◌then◌else◌,
}
use back_end.Prelude.Exec.{Exec, Result, ok, err, Exn, app_error, raised, raise, pure, ◌>>=◌, ◌>>◌}
use back_end.Shared.Exceptions.{conflict_error}
use back_end.Shared.Json.{Json, null, bool, num, str, obj, Fields, nil, field, get, get_or, opt_str}
use back_end.Shared.Events.{EventEnvelope, World, draw, query, write, event_envelope, publish}
use back_end.Auth.Models.{User, pending_tenant, active, is_active}
use back_end.Auth.Db.{AuthDb, user_by_email, user_by_id, put_user, commit_user}
use back_end.Auth.App.{App}
use back_end.Auth.Tokens.{str_opt_uuid}
use back_end.Auth.Registry.{OnboardingCompletion, Call, completes}

-- `OnboardingRequest`, validated
pub record OnboardingRequest : Type 0 where
  pub email : String
  pub password : String
  pub name : String
  pub phone : Option String
  pub business_name : String
  pub timezone : String
  pub legal_name : String
  pub support_inbox : String

module _ (a : App) where
  -- The new user's row, of the request and the draws.
  unfoldable pub new_user : OnboardingRequest → Exec (World AuthDb) User
  new_user request = do
    id ← draw a.uuid4
    password_hash ← draw (λ salt. a.bcrypt_hash salt request.password)
    created_at ← draw a.utcnow
    modified_at ← draw a.utcnow
    pure (record {
      id = id;
      tenant_id = none;
      email = request.email;
      password_hash = some password_hash;
      full_name = some request.name;
      phone = request.phone;
      status = pending_tenant;
      created_at = created_at;
      modified_at = modified_at;
    })

  unfoldable pub add_user : OnboardingRequest → Exec (World AuthDb) User
  unfolding new_user
  add_user request = do user ← new_user request; commit_user user; pure user

  abbrev pub add_unless : Option User → OnboardingRequest → Exec (World AuthDb) User
  add_unless (some _) request = raise (conflict_error "email already registered")
  add_unless none request = add_user request

  unfoldable pub start_onboarding : OnboardingRequest → Exec (World AuthDb) User
  start_onboarding request = do
    existing ← query (λ db. user_by_email request.email db.users)
    add_unless existing request

  abbrev pub pending_payload : User → OnboardingRequest → Fields
  pending_payload user request = field "user_id" (str (a.str_uuid user.id)) (
      field "email" (str user.email) (
        field "full_name" (opt_str user.full_name) (
          field "phone" (opt_str user.phone) (
            field "business_name" (str request.business_name) (
              field "legal_name" (str request.legal_name) (
                field "support_inbox" (str request.support_inbox)
                  (field "timezone" (str request.timezone) nil)))))))

  unfoldable pub publish_pending : User → OnboardingRequest → Exec (World AuthDb) String
  unfolding event_envelope publish
  publish_pending user request = do
    event ←
        event_envelope a.host "onboarding.pending" (a.str_uuid user.id) null
          (pending_payload user request)
    publish a.host "onboarding" event

  abbrev pub completed_payload : User → Fields → Fields
  completed_payload user payload = field "user_id" (str (a.str_uuid user.id)) (
      field "tenant_id" (opt_str (str_opt_uuid a user.tenant_id)) (
        field "email" (str user.email) (
          field "full_name" (opt_str user.full_name) (
            field "phone" (opt_str user.phone) (
              field "business_name" (get_or "business_name" (str "") payload) (
                field "timezone" (get_or "timezone" (str "") payload)
                  (field "support_inbox" (get_or "support_inbox" (str "") payload) nil)))))))

  -- `uuid.UUID(payload[key])`: the text is missing, is no text, or is no UUID.
  unfoldable pub uuid_of : Option Json → Result ℕ
  uuid_of none = err (raised "KeyError")
  uuid_of (some (str s)) = elim (a.parse_uuid s) [
    | none ↦ err (raised "ValueError")
    | some u ↦ ok u
  ]
  uuid_of (some null) = err (raised "TypeError")
  uuid_of (some _) = err (raised "AttributeError")

  abbrev pub lift : {D A : Type 0} → Result A → Exec (World D) A
  lift r w = (r, w)

  -- The assignment and its commit, then the event.
  unfoldable pub assign_to : ℕ → EventEnvelope → User → Exec (World AuthDb) (Option User)
  unfolding event_envelope publish
  assign_to tenant_id event user = do
    let user' = record user { tenant_id = some tenant_id; status = active }
    db ← query (λ db. db)
    write (record db { users = put_user user' db.users })
    completed ←
        event_envelope a.host "onboarding.completed" (a.str_uuid user.id)
          (str (a.str_uuid tenant_id)) (completed_payload user' event.payload)
    publish a.host "onboarding" completed
    pure (some user')

  -- A user who is active already is left alone.
  unfoldable pub assign_tenant : EventEnvelope → Option User → Exec (World AuthDb) (Option User)
  unfolding uuid_of assign_to
  assign_tenant event none = pure none
  assign_tenant event (some user) = if is_active user.status then pure none else (do
    tenant_id ← lift (uuid_of (get "tenant_id" event.payload))
    assign_to tenant_id event user)

  unfoldable pub handle_tenant_created : EventEnvelope → Exec (World AuthDb) (Option User)
  unfolding uuid_of assign_tenant
  handle_tenant_created event = do
    user_id ← lift (uuid_of (some (str event.aggregate_id)))
    found ← query (λ db. user_by_id user_id db.users)
    assign_tenant event found

  -- What the handler of events.py tells the registry, by what `handle_tenant_created` returned.
  abbrev completions : Option User → List Call
  completions none = []
  completions (some user) = elim user.tenant_id [
    | none ↦ []
    | some tenant_id ↦ completes (record { user_id = user.id; tenant_id = tenant_id }) ∷ []
  ]

  -- `_handler` of `build_handlers`: the calls that it makes on the registry are its result.
  unfoldable pub handler : EventEnvelope → Exec (World AuthDb) (List Call)
  unfolding handle_tenant_created
  handler event = do user ← handle_tenant_created event; pure (completions user)
