-- ===== src/Auth/Audit.antt =====
-- The audit log of the authentication: apps/api/internal/auth/store.go (its in-memory recorder),
-- middleware.go (what it records of a request) and `ComputeAuditHash` of hash.go.
pub mod Chains
pub mod Tests
use prompt_pack.Base.{String, ◌&◌, not, Option, none, some, List, [], ◌∷◌, ◌++◌, ◌==◌}
use prompt_pack.Base.Tests.{if◌then◌else◌}
use prompt_pack.Base.Text.{split, trim_space}
use prompt_pack.Base.Lists.{get_last?}
use prompt_pack.Base.Dict.{Dict, put}
use prompt_pack.Base.Chain.{Chained}
use prompt_pack.Base.Recorder.{entries_of, last_hash}
use prompt_pack.Auth.Domain.{Time, ApiKey, Config, AuditLogEntry}
use prompt_pack.Auth.Hash.{Crypto}
use prompt_pack.Auth.Store.{KeyStore}
use prompt_pack.Auth.Middleware.{Request, Event, Verdict, Later, middleware}

-- `InMemoryAuthAuditRecorder`, its map from tenants to their entries.
abbrev pub AuthAuditRecorder : Type 0
AuthAuditRecorder = Dict (List AuditLogEntry)

-- `Record`, which returns no error.
unfoldable pub record_entry : AuthAuditRecorder → AuditLogEntry → AuthAuditRecorder
record_entry m entry = put m entry.tenant_id (entries_of m entry.tenant_id ++ entry ∷ [])

-- `Last`; an error is `none`.
unfoldable pub last_entry : AuthAuditRecorder → String → Option AuditLogEntry
last_entry m tenant_id = get_last? (entries_of m tenant_id)

-- The fields that `computeEntryHash` hands to `json.Marshal`.
pub record HashData : Type 0 where
  pub id : String
  pub tenant_id : String
  pub corr_id : String
  pub action : String
  pub key_id : String
  pub ip_address : String
  pub user_agent : String
  pub details : String
  pub timestamp : String
  pub prev_hash : String

-- `Format(time.RFC3339)`, `json.Marshal`, whose error is `none`, and the hex digits of SHA-256.
pub record Digest : Type 0 where
  pub time_string : Time → String
  pub marshal : HashData → Option String
  pub sha256_hex : String → String

-- The two writes to the hash are one of both texts.
unfoldable pub compute_audit_hash : Digest → String → String → String
compute_audit_hash d prev_hash text = d.sha256_hex (prev_hash & text)

-- `computeEntryHash`, with the empty text that its callers put for an error.
unfoldable pub compute_entry_hash : Digest → AuditLogEntry → String
unfolding compute_audit_hash
compute_entry_hash d entry =
    elim (d.marshal (record {
      id = entry.id;
      tenant_id = entry.tenant_id;
      corr_id = entry.corr_id;
      action = entry.action;
      key_id = entry.key_id;
      ip_address = entry.ip_address;
      user_agent = entry.user_agent;
      details = entry.details;
      timestamp = d.time_string entry.timestamp;
      prev_hash = entry.prev_hash;
    })) [ none ↦ "" | some bytes ↦ compute_audit_hash d entry.prev_hash bytes ]

unfoldable pub first_part : List String → String
first_part [] = ""
first_part (p ∷ ps) = p

-- An absent header is "".
unfoldable pub get_client_ip : Request → String
unfolding split trim_space first_part
get_client_ip r =
    if not (r.forwarded_for == "")
    then trim_space (first_part (split r.forwarded_for 44))
    else if not (r.real_ip == "")
    then r.real_ip
    else r.remote_addr

unfoldable pub new_entry :
    String → Time → Request → String → String → String → String → String → AuditLogEntry
unfolding get_client_ip
new_entry id now r tenant_id corr_id action key_id prev_hash = record {
  id = id;
  tenant_id = tenant_id;
  corr_id = corr_id;
  action = action;
  key_id = key_id;
  ip_address = get_client_ip r;
  user_agent = r.user_agent;
  details = "";
  timestamp = now;
  prev_hash = prev_hash;
  hash = "";
}

-- The entry with its hash.
unfoldable pub hashed : Digest → AuditLogEntry → AuditLogEntry
unfolding compute_entry_hash
hashed d entry = record entry { hash = compute_entry_hash d entry }

abbrev pub hash_of : AuditLogEntry → String
hash_of e = e.hash

-- What the other goroutines append to the audit log between the call of `Last` and that of `Record`, which are
-- two sections under the recorder's lock.
unfoldable pub append_all : AuthAuditRecorder → List AuditLogEntry → AuthAuditRecorder
unfolding record_entry
append_all m [] = m
append_all m (entry ∷ entries) = append_all (record_entry m entry) entries

-- `id` and `now` are what `generateID` and the clock give, `between` the entries of other goroutines
-- after `Last`. An entry without a tenant is not linked to the one before it.
unfoldable pub record_auth_failure :
    Digest
    → String
    → Time
    → List AuditLogEntry
    → Option AuthAuditRecorder
    → String
    → String
    → String
    → Request
    → Option AuthAuditRecorder
unfolding last_entry new_entry hashed record_entry append_all
record_auth_failure d id now between none tenant_id corr_id action r = none
record_auth_failure d id now between (some m) tenant_id corr_id action r =
    let prev_hash = if tenant_id == "" then "" else last_hash hash_of (last_entry m tenant_id) in
    some (
      record_entry (append_all m between)
        (hashed d (new_entry id now r tenant_id corr_id action "" prev_hash)))

unfoldable pub record_auth_success :
    Digest
    → String
    → Time
    → List AuditLogEntry
    → Option AuthAuditRecorder
    → String
    → String
    → String
    → Request
    → Option AuthAuditRecorder
unfolding last_entry new_entry hashed record_entry append_all
record_auth_success d id now between none tenant_id corr_id key_id r = none
record_auth_success d id now between (some m) tenant_id corr_id key_id r =
    let prev_hash = last_hash hash_of (last_entry m tenant_id) in
    some (
      record_entry (append_all m between)
        (hashed d (new_entry id now r tenant_id corr_id "auth.success" key_id prev_hash)))

-- The call that the middleware makes for an event: a success has its key, a failure has none.
unfoldable pub record_event :
    Digest
    → String
    → Time
    → List AuditLogEntry
    → Option AuthAuditRecorder
    → String
    → Request
    → Event
    → Option AuthAuditRecorder
unfolding record_auth_failure record_auth_success
record_event d id now between audit corr_id r e =
    if e.action == "auth.success"
    then record_auth_success d id now between audit e.tenant_id corr_id e.key_id r
    else record_auth_failure d id now between audit e.tenant_id corr_id e.action r

-- The entries of a tenant are a chain from the empty hash.
abbrev pub IsChain : Digest → List AuditLogEntry → Type 0
IsChain d = Chained hash_of (λ (e : AuditLogEntry). e.prev_hash) (compute_entry_hash d) ""

-- One request: the middleware of `APIKeyMiddleware`, and the audit log after it. `id` and `recorded_at` are those
-- of the entry, if there is one, `between` the entries that others append between its `Last` and its
-- `Record`, `store` the keys as they are then.
pub record Call : Type 0 where
  pub request : Request
  pub store : KeyStore
  pub order : List (String × ApiKey)
  pub now : Time
  pub later : ApiKey → Later
  pub recorded_at : Time
  pub between : List AuditLogEntry
  pub new_corr_id : String
  pub id : String

unfoldable pub corr_id_of : Call → String
corr_id_of call =
    if call.request.correlation_id == "" then call.new_corr_id else call.request.correlation_id

unfoldable pub serve :
    Crypto → Digest → Config → Option AuthAuditRecorder → Call → Option AuthAuditRecorder × Verdict
unfolding record_event corr_id_of
serve c d cfg audit call =
    let (verdict, event) =
      middleware c call.store call.order cfg call.now call.later call.new_corr_id call.request in
    (
      elim event [
        | none ↦ audit
        | some e ↦
            record_event d call.id call.recorded_at call.between audit (corr_id_of call)
              call.request e
      ],
      verdict,
    )
