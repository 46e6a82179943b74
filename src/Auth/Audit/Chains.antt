-- ===== src/Auth/Audit/Chains.antt =====
-- The hash chain of a tenant's audit log of apps/api/internal/auth, and when it breaks: two concurrent requests of one
-- tenant can name the same last entry.
use prompt_pack.Auth.Audit.{record_entry, append_all}
use prompt_pack.Base.Dict.{find-put_ne}
use prompt_pack.Base.Lists.{get_last?, All}
use mathlib.Core.Path.{ap₂}
use prompt_pack.Base.{subst}
use prompt_pack.Base.{
  String, ◌≡◌, refl, sym, ap, ◌∙◌, ◌≢◌, inl, inr, Option, none, some, List, [], ◌∷◌, ◌++◌, arith,
  ◌==◌, eq_iff,
}
use prompt_pack.Base.Tests.{if◌then◌else◌, Bool-cases, if_true, if_false}
use prompt_pack.Base.Recorder.{entries_of, Chained-put, last_hash}
use prompt_pack.Auth.Domain.{Time, Config, AuditLogEntry}
use prompt_pack.Auth.Hash.{Crypto}
use prompt_pack.Auth.Middleware.{Request, Event, middleware}
use prompt_pack.Auth.Audit.{
  AuthAuditRecorder, Digest, IsChain, Call, serve, corr_id_of, hash_of, hashed, compute_entry_hash,
  last_entry, new_entry, record_event, get_client_ip,
}

-- None of the entries is the tenant's.
abbrev pub Foreign : String → List AuditLogEntry → Type 0
Foreign t = All (λ (entry : AuditLogEntry). entry.tenant_id ≢ t)

-- The tenant's log after an event: it stays a chain, and goes on by an entry of that event if it is one of the tenant's.
abbrev pub GoesOn :
    Digest → String → Request → Event → String → AuthAuditRecorder → AuthAuditRecorder → Type 0
GoesOn d corr_id r e t m m' =
    IsChain d (entries_of m' t)
    × ((entry : AuditLogEntry) × (entries_of m' t
          ≡ (if e.tenant_id == t then entries_of m t ++ entry ∷ [] else entries_of m t))
        × (entry.action ≡ e.action)
        × (entry.corr_id ≡ corr_id)
        × (entry.ip_address ≡ get_client_ip r))

append_all-Foreign :
    (m : AuthAuditRecorder) (entries : List AuditLogEntry) (t : String)
    → Foreign t entries
    → entries_of (append_all m entries) t ≡ entries_of m t
unfolding append_all record_entry
append_all-Foreign m [] t foreign = refl
append_all-Foreign m (entry ∷ entries) t (other, rest) =
    append_all-Foreign (record_entry m entry) entries t rest
    ∙ ground
        (arith, find-put_ne m entry.tenant_id t (entries_of m entry.tenant_id ++ entry ∷ []) other)

hashed-hash :
    (d : Digest) (entry : AuditLogEntry)
    → (hashed d entry).hash ≡ compute_entry_hash d (hashed d entry)
unfolding hashed
hashed-hash d entry = refl

module _ (d : Digest) (id : String) (now : Time) (between : List AuditLogEntry)
    (m : AuthAuditRecorder) (corr_id : String) (r : Request) (e : Event) (t : String)
    (named : t ≢ "") (foreign : Foreign t between) (chain : IsChain d (entries_of m t)) where
  goes_on :
      (entry : AuditLogEntry)
      → (e.tenant_id ≡ t → entry.prev_hash ≡ last_hash hash_of (last_entry m e.tenant_id))
      → entry.tenant_id ≡ e.tenant_id
      → entry.action ≡ e.action
      → entry.corr_id ≡ corr_id
      → entry.ip_address ≡ get_client_ip r
      → GoesOn d corr_id r e t m (record_entry (append_all m between) (hashed d entry))
  unfolding hashed last_entry record_entry
  goes_on entry linked tenant action corr ip =
      let m' = append_all m between in
      let same = append_all-Foreign m between t foreign in
      let (c, after) =
        Chained-put hash_of (λ (x : AuditLogEntry). x.prev_hash) (compute_entry_hash d) m'
          entry.tenant_id (hashed d entry) t
          (λ own.
            linked (sym tenant ∙ own)
            ∙ ap (λ (x : String). last_hash hash_of (get_last? (entries_of m x))) (sym tenant ∙ own)
            ∙ ap (λ (es : List AuditLogEntry). last_hash hash_of (get_last? es))
                (sym same ∙ ap (entries_of m') (sym own)))
          (hashed-hash d entry) (subst (IsChain d) (sym same) chain) in
      (
        c,
        (
          hashed d entry,
          after
              ∙ ap₂
                  (λ (x : String) (es : List AuditLogEntry).
                    if x == t then es ++ hashed d entry ∷ [] else es)
                  tenant same,
          action,
          corr,
          ip,
        ),
      )

  -- `some m` after an event is a recorder again.
  record_event-GoesOn :
      (m' : AuthAuditRecorder) × (record_event d id now between (some m) corr_id r e ≡ some m')
      × GoesOn d corr_id r e t m m'
  unfolding record_event
  record_event-GoesOn = elim (Bool-cases (e.action == "auth.success")) [
    | inl success ↦ (
      _,
      if_true _ _ success,
      goes_on
          (new_entry id now r e.tenant_id corr_id "auth.success" e.key_id
            (last_hash hash_of (last_entry m e.tenant_id)))
          (λ h. refl) refl (sym ((eq_iff e.action "auth.success").0 success)) refl refl,
    )
    | inr failure ↦ (
      _,
      if_false _ _ failure,
      goes_on
          (new_entry id now r e.tenant_id corr_id e.action ""
            (if e.tenant_id == "" then "" else last_hash hash_of (last_entry m e.tenant_id)))
          (λ h. ground (arith, h, named, eq_iff e.tenant_id "")) refl refl refl refl,
    )
  ]

-- The audit log after a sequence of requests.
unfoldable pub served :
    Crypto → Digest → Config → Option AuthAuditRecorder → List Call → Option AuthAuditRecorder
unfolding serve
served c d cfg audit [] = audit
served c d cfg audit (call ∷ calls) = served c d cfg (serve c d cfg audit call).0 calls

module _ (c : Crypto) (d : Digest) (cfg : Config) (t : String) (named : t ≢ "") where
  serve-IsChain :
      (m : AuthAuditRecorder) (call : Call)
      → Foreign t call.between
      → IsChain d (entries_of m t)
      → (m' : AuthAuditRecorder) × ((serve c d cfg (some m) call).0 ≡ some m')
        × IsChain d (entries_of m' t)
  unfolding serve
  serve-IsChain m call foreign chain =
      recorded
        (middleware c call.store call.order cfg call.now call.later call.new_corr_id call.request).1
    where
      after : Option Event → Option AuthAuditRecorder
      after none = some m
      after (some e) =
          record_event d call.id call.recorded_at call.between (some m) (corr_id_of call)
            call.request e

      recorded :
          (o : Option Event)
          → (m' : AuthAuditRecorder) × (after o ≡ some m') × IsChain d (entries_of m' t)
      recorded none = (m, refl, chain)
      recorded (some e) =
          let (m', at, (goes, _)) =
            record_event-GoesOn d call.id call.recorded_at call.between m (corr_id_of call)
              call.request e t named foreign chain in
          (m', at, goes)

  -- The middleware appends the entries of a sequence of requests in this order, and between the `Last` and
  -- the `Record` of each only entries of other tenants are appended: then the log of a tenant with an id that is not
  -- empty, once a hash chain, stays one. (The entries of failures without a tenant are not chained.)
  pub served-IsChain :
      (m : AuthAuditRecorder) (calls : List Call)
      → All (λ (call : Call). Foreign t call.between) calls
      → IsChain d (entries_of m t)
      → (m' : AuthAuditRecorder) × (served c d cfg (some m) calls ≡ some m')
        × IsChain d (entries_of m' t)
  unfolding served
  served-IsChain m [] foreign chain = (m, refl, chain)
  served-IsChain m (call ∷ calls) (foreign, rest) chain =
      let (m', at, chain') = serve-IsChain m call foreign chain in
      let (m'', at', chain'') = served-IsChain m' calls rest chain' in
      (m'', ap (λ (o : Option AuthAuditRecorder). served c d cfg o calls) at ∙ at', chain'')
