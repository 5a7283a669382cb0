-- ===== src/Storage/Client.antt =====
-- packages/storage/src/client.ts. The object storage and its presigner (the AWS SDK) are an argument: a
-- state, and calls that may fail.
use text.Mathlib.Text.{starts_with}
use vkit_orbit.Base.{ℕ, String, Option, none, some, min, if◌then◌else◌}
use vkit_orbit.Json.Print.{◌<>◌}
use vkit_orbit.Store.Client.{Result, ok, err}
use vkit_orbit.Storage.Keys.{source_object_key, assert_object_key, strip_slashes}

pub data Operation : Type 0 where
  put_object get_object head_object delete_object : Operation

pub record StorageConfig : Type 0 where
  pub bucket : String
  pub root_prefix : String

-- What a command for an object says besides its bucket and key.
pub record Content : Type 0 where
  pub body : String
  pub content_type : String
  pub content_length : Option ℕ

abbrev pub or_else : Option ℕ → ℕ → ℕ
or_else none n = n
or_else (some m) n = m

-- The rest of a call whose check may throw.
abbrev pub checked : {A B Q : Type 0} → Result A → (A → Q → Result B × Q) → Q → Result B × Q
checked (ok a) f q = f a q
checked (err e) f q = (err e, q)

pub record ObjectStorage (Q : Type 0) : Type 0 where
  -- `client.send` with the operation, the bucket, the key and what is put
  pub send : Operation → String → String → Option Content → Q → Result String × Q
  -- a signed URL for an operation on a key, and its seconds
  pub presign : Operation → String → String → ℕ → Q → Result String × Q

module _ {Q : Type 0} (storage : ObjectStorage Q) (trim : String → String)
    (config : StorageConfig) where
  -- The key under the configured prefix.
  abbrev pub upload_key : String → String
  upload_key key =
      if starts_with key (strip_slashes config.root_prefix <> "/")
      then key
      else config.root_prefix <> "/" <> key

  abbrev pub presign_upload : Option ℕ → String → Q → Result String × Q
  presign_upload expires_in object_key =
      checked (assert_object_key trim config.root_prefix object_key)
        λ _. storage.presign put_object config.bucket object_key (min (or_else expires_in 900) 900)

  -- `createUploadUrl`
  unfoldable pub create_upload_url : String → String → String → Option ℕ → Q → Result String × Q
  create_upload_url workspace_id document_id artifact_id expires_in =
      checked (source_object_key workspace_id document_id artifact_id)
        λ key. presign_upload expires_in (upload_key key)

  -- `createDownloadUrl`
  unfoldable pub create_download_url : String → Option ℕ → Q → Result String × Q
  create_download_url key expires_in =
      checked (assert_object_key trim config.root_prefix key)
        λ _. storage.presign get_object config.bucket key (min (or_else expires_in 300) 300)

  abbrev pub send_checked : Operation → String → Option Content → Q → Result String × Q
  send_checked operation key content =
      checked (assert_object_key trim config.root_prefix key)
        λ _. storage.send operation config.bucket key content

  unfoldable pub put : String → Content → Q → Result String × Q
  put key content = send_checked put_object key (some content)

  unfoldable pub get : String → Q → Result String × Q
  get key = send_checked get_object key none

  unfoldable pub head : String → Q → Result String × Q
  head key = send_checked head_object key none

  unfoldable pub delete : String → Q → Result String × Q
  delete key = send_checked delete_object key none
