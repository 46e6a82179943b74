-- ===== src/Pint/Audit.antt =====
-- apps/api/internal/pint/audit.go, models.go and handler.go: the audit log of each tenant, a hash chain,
-- and its in-memory recorder.
use prompt_pack.Base.{String, ◌&◌, ◌≡◌, refl, Option, List, [], ◌∷◌, ◌++◌, ◌==◌}
use prompt_pack.Base.Tests.{if◌then◌else◌}
use prompt_pack.Base.Lists.{get_last?}
use prompt_pack.Base.Dict.{Dict, put}
use prompt_pack.Base.Chain.{Chained}
use prompt_pack.Base.Recorder.{entries_of, Chained-put, last_hash, OneMore, put-OneMore}
use prompt_pack.Pint.Types.{Time}

pub record AuditLog : Type 0 where
  pub audit_id : String
  pub corr_id : String
  pub tenant_id : String
  pub actor : String
  pub action : String
  pub ts : Time
  pub hash : String
  pub prev_hash : String

-- `MemoryAuditRecorder`, its map from tenants to their entries.
abbrev pub MemoryAuditRecorder : Type 0
MemoryAuditRecorder = Dict (List AuditLog)

-- `Append`
unfoldable pub append : MemoryAuditRecorder → AuditLog → MemoryAuditRecorder
append m entry = put m entry.tenant_id (entries_of m entry.tenant_id ++ entry ∷ [])

-- `Last`; an error is `none`.
unfoldable pub last : MemoryAuditRecorder → String → Option AuditLog
last m tenant_id = get_last? (entries_of m tenant_id)

-- `Ts.UTC().Format(time.RFC3339Nano)` and the hex digits of `sha256.Sum256`.
pub record Digest : Type 0 where
  pub time_string : Time → String
  pub sha256_hex : String → String

unfoldable pub hash_audit : Digest → AuditLog → String
hash_audit d entry = d.sha256_hex (
    entry.corr_id
    & ("|"
        & (entry.tenant_id
            & ("|"
                & (entry.actor
                    & ("|"
                        & (entry.action
                            & ("|" & (d.time_string entry.ts & ("|" & entry.prev_hash))))))))))

-- The entry that `HashChain` appends.
unfoldable pub linked_entry : Digest → Option AuditLog → AuditLog → AuditLog
unfolding hash_audit
linked_entry d prev entry =
    let entry' = record entry { prev_hash = last_hash (λ (e : AuditLog). e.hash) prev } in
    record entry' { hash = hash_audit d entry' }

-- `HashChain`: the zero entry's hash is empty when the tenant has no entry.
unfoldable pub hash_chain :
    Digest → MemoryAuditRecorder → String → AuditLog → MemoryAuditRecorder × AuditLog
unfolding last linked_entry append
hash_chain d m tenant_id entry =
    let entry' = linked_entry d (last m tenant_id) entry in (append m entry', entry')

-- The entries of a tenant are a chain from the empty hash.
abbrev pub IsChain : Digest → List AuditLog → Type 0
IsChain d = Chained (λ (e : AuditLog). e.hash) (λ e. e.prev_hash) (hash_audit d) ""

-- The entry that it returns is the one it was given, linked, and the only one that is new.
pub hash_chain-OneMore :
    (d : Digest) (m : MemoryAuditRecorder) (entry : AuditLog)
    → let (m', entry') = hash_chain d m entry.tenant_id entry in
      (entry' ≡ record entry { prev_hash = entry'.prev_hash; hash = entry'.hash })
      × OneMore m m' entry.tenant_id entry'
unfolding hash_chain append linked_entry
hash_chain-OneMore d m entry = (refl, put-OneMore m entry.tenant_id _)

-- `HashChain` for the entry's own tenant keeps every tenant's log a hash chain: it adds the one entry
-- that it returns at the end of that tenant's log, and leaves the logs of the others alone.
pub hash_chain-Chained :
    (d : Digest) (m : MemoryAuditRecorder) (entry : AuditLog) (t : String)
    → IsChain d (entries_of m t)
    → let (m', entry') = hash_chain d m entry.tenant_id entry in
      IsChain d (entries_of m' t)
      × (entries_of m' t
          ≡ (if entry.tenant_id == t then entries_of m t ++ entry' ∷ [] else entries_of m t))
unfolding hash_chain
hash_chain-Chained d m entry t chain =
    let prev = last m entry.tenant_id in
    Chained-put (λ (e : AuditLog). e.hash) (λ e. e.prev_hash) (hash_audit d) m entry.tenant_id
      (linked_entry d prev entry) t (λ same. refl) refl chain
