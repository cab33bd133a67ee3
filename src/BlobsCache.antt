-- ===== src/BlobsCache.antt =====
-- blobscache/: the server that keeps blobs of images (server.go), and its client (client.go). JSON and
-- the LRU cache are interfaces; the transport is an argument of the client.
pub mod RoundTrip
use Prim.Native.String.{◌++◌}
use kvisor.Base.{ℕ, String, Option, none, some, Bool, ◌==◌, if◌then◌else◌, ◌⊎◌, inl, inr}

-- `json.NewEncoder` and `json.NewDecoder` at one type.
pub record Codec (Bytes A : Type 0) : Type 0 where
  pub encode : A → String ⊎ Bytes
  pub decode : Bytes → String ⊎ A

-- The calls of `lru.Cache`; `get` also moves what it finds to the front.
pub record Lru (Blob : Type 0) : Type 1 where
  pub Cache : Type 0
  pub add : Cache → String → Blob → Cache
  pub get : Cache → String → Cache × Option Blob

pub record PubBlobRequest (Blob : Type 0) : Type 0 where
  pub key : String
  pub blob : Blob

pub record GetBlobRequest : Type 0 where
  pub key : String

pub record GetBlobResponse (Blob : Type 0) : Type 0 where
  pub blob : Blob

-- The status of a response, and its body, if it has one.
pub record Response (Bytes : Type 0) : Type 0 where
  pub status : ℕ
  pub body : Option Bytes

-- What the client's `GetBlob` returns: `ErrCacheNotFound` is told apart from other errors.
pub data BlobAnswer (Blob : Type 0) : Type 0 where
  blob_found : Blob → BlobAnswer Blob
  cache_not_found : BlobAnswer Blob
  blob_error : String → BlobAnswer Blob

module _ {Bytes Blob : Type 0} (lru : Lru Blob) (put_json : Codec Bytes (PubBlobRequest Blob))
    (get_json : Codec Bytes GetBlobRequest) (blob_json : Codec Bytes (GetBlobResponse Blob)) where
  -- `Server.putBlob`.
  unfoldable pub put_blob : lru.Cache → Bytes → lru.Cache × Response Bytes
  put_blob cache body = elim (put_json.decode body) [
    | inl err ↦ (cache, record { status = 500; body = none })
    | inr req ↦ (lru.add cache req.key req.blob, record { status = 200; body = none })
  ]

  -- The response of `Server.getBlob` to what the cache holds.
  unfoldable pub blob_response : Option Blob → Response Bytes
  blob_response none = record { status = 404; body = none }
  blob_response (some blob) = elim (blob_json.encode (record { blob = blob })) [
    | inl err ↦ record { status = 500; body = none }
    | inr bytes ↦ record { status = 200; body = some bytes }
  ]

  -- `Server.getBlob`.
  unfoldable pub get_blob : lru.Cache → Bytes → lru.Cache × Response Bytes
  unfolding blob_response
  get_blob cache body = elim (get_json.decode body) [
    | inl err ↦ (cache, record { status = 500; body = none })
    | inr req ↦ let (moved, found) = lru.get cache req.key in (moved, blob_response found)
  ]

  module _ (fmt_int : ℕ → String) where
    -- `remoteBlobsCache.PutBlob`, over a transport: its error, if it has one.
    unfoldable pub client_put : (Bytes → String ⊎ Response Bytes) → String → Blob → Option String
    client_put post key blob = elim (put_json.encode (record { key = key; blob = blob })) [
      | inl err ↦ some err
      | inr bytes ↦ elim (post bytes) [
        | inl err ↦ some err
        | inr resp ↦
            if resp.status == 200
            then none
            else some ("put blob failed, response status=" ++ fmt_int resp.status)
      ]
    ]

    -- The reading of a response by `remoteBlobsCache.GetBlob`.
    unfoldable pub read_blob : Response Bytes → BlobAnswer Blob
    read_blob resp =
        if resp.status == 200
        then elim resp.body [
          | none ↦ blob_error "EOF"
          | some bytes ↦ elim (blob_json.decode bytes) [
            | inl err ↦ blob_error err
            | inr res ↦ blob_found res.blob
          ]
        ]
        else if resp.status == 404
        then cache_not_found
        else blob_error ("put blob failed, response status=" ++ fmt_int resp.status)

    -- `remoteBlobsCache.GetBlob`, over a transport.
    unfoldable pub client_get : (Bytes → String ⊎ Response Bytes) → String → BlobAnswer Blob
    unfolding read_blob
    client_get post key = elim (get_json.encode (record { key = key })) [
      | inl err ↦ blob_error err
      | inr bytes ↦ elim (post bytes) [ inl err ↦ blob_error err | inr resp ↦ read_blob resp ]
    ]
