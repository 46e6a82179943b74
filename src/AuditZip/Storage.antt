-- ===== src/AuditZip/Storage.antt =====
-- apps/api/internal/auditzip/storage.go: the `Storage` interface and its in-memory implementation.
use prompt_pack.Base.{String, ◌&◌, Option, none, some, ◌⊎◌, inl, inr, []}
use prompt_pack.Base.Dict.{Dict, find, put, delete}
use prompt_pack.Base.Int.{ℤ}
pub use prompt_pack.Base.Int.{add_duration}
use prompt_pack.AuditZip.Types.{Time, JobError, storage_failed}

-- The interface, over a state `S`. The first argument is `ctx.Err()`, the time that of the call.
pub record StorageApi (S : Type 0) : Type 0 where
  pub put_object : Option JobError → Time → String → String → String → S → S × Option JobError
  pub get_signed_url : Time → String → ℤ → S → JobError ⊎ String
  pub delete_object : Option JobError → String → S → S × Option JobError

pub record StoredObject : Type 0 where
  pub body : String
  pub content_type : String
  pub created_at : Time

pub record InMemoryStorage : Type 0 where
  pub objects : Dict StoredObject

unfoldable pub new_in_memory_storage : InMemoryStorage
new_in_memory_storage = record { objects = [] }

-- `url_of` stands for `url.URL.String` over the path and the escaped expiry time.
module _ (url_of : String → Time → String) where
  unfoldable pub put_object :
      Option JobError
      → Time
      → String
      → String
      → String
      → InMemoryStorage
      → InMemoryStorage × Option JobError
  put_object (some e) now key body content_type s = (s, some e)
  put_object none now key body content_type s = (
    record {
      objects =
          put s.objects key (record { body = body; content_type = content_type; created_at = now });
    },
    none,
  )

  unfoldable pub get_signed_url : Time → String → ℤ → InMemoryStorage → JobError ⊎ String
  get_signed_url now key ttl s = elim (find s.objects key) [
    | none ↦ inl (storage_failed "not found")
    | some _ ↦ inr (url_of ("/" & key) (add_duration now ttl))
  ]

  unfoldable pub delete_object :
      Option JobError → String → InMemoryStorage → InMemoryStorage × Option JobError
  delete_object (some e) key s = (s, some e)
  delete_object none key s = (record { objects = delete s.objects key }, none)

  unfoldable pub in_memory : StorageApi InMemoryStorage
  unfolding put_object get_signed_url delete_object
  in_memory = record {
    put_object = put_object;
    get_signed_url = get_signed_url;
    delete_object = delete_object;
  }
