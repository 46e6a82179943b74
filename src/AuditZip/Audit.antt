-- ===== src/AuditZip/Audit.antt =====
-- apps/api/internal/auditzip/audit.go, domain.go and service.go: the audit log of each tenant, a hash chain, and its in-memory recorder.
use text.Mathlib.TextLemmas.{append_assoc}
use prompt_pack.Base.{
  ℕ, String, ◌&◌, ◌≡◌, refl, sym, ap, Option, none, some, List, [], ◌∷◌, ◌++◌, ◌==◌,
}
use prompt_pack.Base.Tests.{if◌then◌else◌}
use prompt_pack.Base.Lists.{get_last?}
use prompt_pack.Base.Dict.{Dict, put}
use prompt_pack.Base.Chain.{Chained}
pub use prompt_pack.Base.Recorder.{entries_of}
use prompt_pack.Base.Recorder.{Chained-put, last_hash, OneMore, put-OneMore}

pub record AuditLog : Type 0 where
  pub audit_id : String
  pub corr_id : String
  pub tenant_id : String
  pub actor : String
  pub action : String
  pub criteria_hash : String
  pub ts : ℕ
  pub hash : String
  pub prev_hash : String

-- `MemoryAuditRecorder`, its map from tenants to their entries.
abbrev pub AuditRecorder : Type 0
AuditRecorder = Dict (List AuditLog)

-- `Append`
unfoldable pub append : AuditRecorder → AuditLog → AuditRecorder
append m entry = put m entry.tenant_id (entries_of m entry.tenant_id ++ entry ∷ [])

-- `Last`; an error is `none`.
unfoldable pub last : AuditRecorder → String → Option AuditLog
last m tenant_id = get_last? (entries_of m tenant_id)

-- `Ts.UTC().Format(time.RFC3339Nano)` and the hex digits of `sha256.Sum256`.
pub record Digest : Type 0 where
  pub time_string : ℕ → String
  pub sha256_hex : String → String

-- `fmt.Sprintf` of the fields between bars.
unfoldable pub payload_of : Digest → AuditLog → String
payload_of d entry =
    entry.corr_id
    & ("|"
        & (entry.tenant_id
            & ("|"
                & (entry.actor
                    & ("|"
                        & (entry.action
                            & ("|"
                                & (entry.criteria_hash
                                    & ("|"
                                        & (d.time_string entry.ts
                                            & ("|" & entry.prev_hash)))))))))))

unfoldable pub hash_audit : Digest → AuditLog → String
hash_audit d entry = d.sha256_hex (payload_of d entry)

unfoldable pub prev_hash_of : Option AuditLog → String
prev_hash_of none = ""
prev_hash_of (some prev) = prev.hash

-- The entry that `HashChain` appends.
unfoldable pub linked_entry : Digest → Option AuditLog → AuditLog → AuditLog
unfolding prev_hash_of
linked_entry d prev entry =
    let entry' = record entry { prev_hash = prev_hash_of prev } in
    record entry' { hash = hash_audit d entry' }

-- `HashChain`: the zero entry's hash is empty when the tenant has no entry.
unfoldable pub hash_chain : Digest → AuditRecorder → String → AuditLog → AuditRecorder × AuditLog
unfolding last linked_entry append
hash_chain d m tenant_id entry =
    let entry' = linked_entry d (last m tenant_id) entry in (append m entry', entry')

-- The entries of a tenant are a chain from the empty hash.
abbrev pub IsChain : Digest → List AuditLog → Type 0
IsChain d = Chained (λ (e : AuditLog). e.hash) (λ e. e.prev_hash) (hash_audit d) ""

hash_audit-hash :
    (d : Digest) (e : AuditLog) (h : String) → hash_audit d (record e { hash = h }) ≡ hash_audit d e
unfolding hash_audit payload_of
hash_audit-hash d e h = refl

prev_hash-last : (o : Option AuditLog) → prev_hash_of o ≡ last_hash (λ (e : AuditLog). e.hash) o
unfolding prev_hash_of
prev_hash-last none = refl
prev_hash-last (some e) = refl

-- `HashChain` for the entry's own tenant keeps every tenant's log a hash chain: it adds the one entry
-- that it returns at the end of that tenant's log, and leaves the logs of the others alone.
pub hash_chain-IsChain :
    (d : Digest) (m : AuditRecorder) (entry : AuditLog) (t : String)
    → IsChain d (entries_of m t)
    → let (m', entry') = hash_chain d m entry.tenant_id entry in
      IsChain d (entries_of m' t)
      × (entries_of m' t
          ≡ (if entry.tenant_id == t then entries_of m t ++ entry' ∷ [] else entries_of m t))
unfolding hash_chain
hash_chain-IsChain d m entry t chain =
    let prev = last m entry.tenant_id in
    Chained-put (λ (e : AuditLog). e.hash) (λ e. e.prev_hash) (hash_audit d) m entry.tenant_id
      (linked_entry d prev entry) t (λ same. prev_hash-last prev)
      (sym (hash_audit-hash d (record entry { prev_hash = prev_hash_of prev }) _)) chain

-- The entry that it returns is the one it was given, linked, and the only one that is new.
pub hash_chain-OneMore :
    (d : Digest) (m : AuditRecorder) (entry : AuditLog)
    → let (m', entry') = hash_chain d m entry.tenant_id entry in
      (entry' ≡ record entry { prev_hash = entry'.prev_hash; hash = entry'.hash })
      × OneMore m m' entry.tenant_id entry'
unfolding hash_chain append linked_entry
hash_chain-OneMore d m entry = (refl, put-OneMore m entry.tenant_id _)

-- The bars do not delimit: a bar in a correlation id or a tenant id moves the border between the two
-- fields, and the hash of the entry stays the same.
pub hash_audit_ambiguous :
    (d : Digest) (entry : AuditLog) (a b c : String)
    → hash_audit d (record entry { corr_id = a & ("|" & b); tenant_id = c })
      ≡ hash_audit d (record entry { corr_id = a; tenant_id = b & ("|" & c) })
unfolding hash_audit payload_of
hash_audit_ambiguous d entry a b c = ap d.sha256_hex (simp append_assoc)
