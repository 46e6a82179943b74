-- ===== src/Pint/Storage.antt =====
-- apps/api/internal/pint/storage.go: the `Storage` interface and its in-memory implementation.
use prompt_pack.Base.{ℕ, String, ◌&◌, ◌⊎◌, inl, inr, Option, none, some, []}
use Prim.Native.String.{len}
use prompt_pack.Base.Dict.{Dict, find, put}
use prompt_pack.Base.Int.{ℤ}
pub use prompt_pack.Base.Int.{add_duration}
use prompt_pack.Pint.Types.{Time}

pub record ObjectMeta : Type 0 where
  pub key : String
  pub size : ℕ
  pub updated_at : Time
  pub content_type : String

-- The interface, over a state `S`. `put_object` takes `ctx.Err()` and the two times that it may read,
-- and returns an error as text.
pub record StorageApi (S : Type 0) : Type 0 where
  pub put_object : Option String → Time → Time → String → String → String → S → S × Option String
  pub get_signed_url : Time → String → ℤ → S → String ⊎ String
  pub head : String → S → String ⊎ ObjectMeta
  pub get_object : String → S → String ⊎ (String × String)

pub record StoredObject : Type 0 where
  pub body : String
  pub content_type : String
  pub updated_at : Time

pub record InMemoryStorage : Type 0 where
  pub objects : Dict StoredObject
  pub metas : Dict ObjectMeta

unfoldable pub new_in_memory_storage : InMemoryStorage
new_in_memory_storage = record { objects = []; metas = [] }

-- `http.DetectContentType`, and `url.URL.String` over the path and the escaped expiry time.
module _ (detect_content_type : String → String) (url_of : String → Time → String) where
  -- The object is stored even where the context's error is returned.
  unfoldable pub put_object :
      Option String
      → Time
      → Time
      → String
      → String
      → String
      → InMemoryStorage
      → InMemoryStorage × Option String
  put_object ctx_err now now' key body content_type s = (
    record {
      objects =
          put s.objects key
            (record { body = body; content_type = detect_content_type body; updated_at = now });
      metas = put s.metas key (record {
        key = key;
        size = len body;
        updated_at = now';
        content_type = detect_content_type body;
      });
    },
    ctx_err,
  )

  unfoldable pub get_signed_url : Time → String → ℤ → InMemoryStorage → String ⊎ String
  get_signed_url now key ttl s = elim (find s.objects key) [
    | none ↦ inl "not found"
    | some _ ↦ inr (url_of ("/storage/" & key) (add_duration now ttl))
  ]

  unfoldable pub head : String → InMemoryStorage → String ⊎ ObjectMeta
  head key s = elim (find s.metas key) [ none ↦ inl "not found" | some meta ↦ inr meta ]

  unfoldable pub get_object : String → InMemoryStorage → String ⊎ (String × String)
  get_object key s = elim (find s.objects key) [
    | none ↦ inl "not found"
    | some obj ↦ inr (obj.body, obj.content_type)
  ]

  unfoldable pub in_memory : StorageApi InMemoryStorage
  unfolding put_object get_signed_url head get_object
  in_memory = record {
    put_object = put_object;
    get_signed_url = get_signed_url;
    head = head;
    get_object = get_object;
  }
