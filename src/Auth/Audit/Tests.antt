-- ===== src/Auth/Audit/Tests.antt =====
-- Runs of the middleware with its audit log.
use prompt_pack.Base.{map}
use prompt_pack.Auth.Domain.{AuditLogEntry}
use prompt_pack.Auth.Tests.{quiet}
use prompt_pack.Base.{◌≡◌, refl, none, some, [], ◌∷◌, arith, eq_iff}
use prompt_pack.Base.Dict.{find, put}
use prompt_pack.Base.Lists.{length}
use prompt_pack.Base.Recorder.{entries_of}
use prompt_pack.Auth.Audit.{AuthAuditRecorder, Digest, Call, IsChain, serve, get_client_ip}
use prompt_pack.Auth.Audit.Chains.{served, served-IsChain}
use prompt_pack.Auth.Hash.{verify_key, trim_prefix}
use prompt_pack.Auth.Store.{validate_key}
use prompt_pack.Auth.Middleware.{middleware}
use prompt_pack.Auth.Tests.{config, plain, store, good_request}

abbrev digest : Digest
digest = record { time_string = λ t. "now"; marshal = λ h. some h.id; sha256_hex = λ s. s }

abbrev call : Call
call = record {
  request = good_request;
  store = store;
  order = store.keys;
  now = 5;
  later = quiet 5;
  recorded_at = 6;
  between = [];
  new_corr_id = "c2";
  id = "e1";
}

-- Another request of the same tenant, which records its entry between this one's `Last` and `Record`.
abbrev race : Call
race = record call {
  between =
      record {
        id = "e0";
        tenant_id = "acme";
        corr_id = "c0";
        action = "auth.success";
        key_id = "key1";
        ip_address = "";
        user_agent = "";
        details = "";
        timestamp = 6;
        prev_hash = "";
        hash = "e0";
      }
      ∷ [];
}

-- Both entries name the empty hash as the one before: the log is no chain.
race_test :
    map
      (λ (e : AuditLogEntry). e.prev_hash)
      (entries_of
        (elim (serve plain digest config (some []) race).0 [ none ↦ [] | some m ↦ m ])
        "acme")
    ≡ "" ∷ "" ∷ []
unfolding find serve middleware trim_prefix validate_key verify_key put
race_test = refl

serve_test :
    length (
      entries_of
        (elim (serve plain digest config (some []) call).0 [ none ↦ [] | some m ↦ m ])
        "acme")
    ≡ 1
unfolding find serve middleware trim_prefix validate_key verify_key put
serve_test = refl

get_client_ip_test :
    get_client_ip (record good_request { forwarded_for = " 10.0.0.1 , 10.0.0.2" }) ≡ "10.0.0.1"
unfolding get_client_ip
get_client_ip_test = refl

served-IsChain_example :
    (m' : AuthAuditRecorder) × (served plain digest config (some []) (call ∷ call ∷ []) ≡ some m')
    × IsChain digest (entries_of m' "acme")
served-IsChain_example =
    served-IsChain plain digest config "acme" (λ e. ground (arith, eq_iff "acme" "", e)) []
      (call ∷ call ∷ []) (tt, (tt, tt)) (unfold find in tt)
