-- ===== src/BlobsCache/RoundTrip.antt =====
-- The client and the server of the cache of blobs together.
use kvisor.Base.{ℕ, String, Option, none, some, ◌≡◌, refl, inr, ap, ◌∙◌}
use kvisor.BlobsCache.{
  Codec, Lru, PubBlobRequest, GetBlobRequest, GetBlobResponse, BlobAnswer, blob_found,
  cache_not_found, put_blob, blob_response, get_blob, client_put, read_blob, client_get,
}

-- What is encoded is decoded to the same.
pub record CodecLaws {Bytes A : Type 0} (json : Codec Bytes A) : Type 0 where
  pub round_trip :
      (x : A) → (bytes : Bytes) × (json.encode x ≡ inr bytes) × (json.decode bytes ≡ inr x)

-- What was just added is held, under its key.
pub record LruLaws {Blob : Type 0} (lru : Lru Blob) : Type 0 where
  pub held :
      (cache : lru.Cache) (key : String) (blob : Blob)
      → (lru.get (lru.add cache key blob) key).1 ≡ some blob

-- What the client is told of what the cache holds.
abbrev pub told : {Blob : Type 0} → Option Blob → BlobAnswer Blob
told none = cache_not_found
told (some blob) = blob_found blob

module _ {Bytes Blob : Type 0} (lru : Lru Blob) (put_json : Codec Bytes (PubBlobRequest Blob))
    (get_json : Codec Bytes GetBlobRequest) (blob_json : Codec Bytes (GetBlobResponse Blob))
    (put_laws : CodecLaws put_json) (get_laws : CodecLaws get_json)
    (blob_laws : CodecLaws blob_json) (fmt_int : ℕ → String) where
  read-response :
      (found : Option Blob)
      → read_blob lru put_json get_json blob_json fmt_int
          (blob_response lru put_json get_json blob_json found)
        ≡ told found
  unfolding read_blob blob_response
  read-response none = refl
  read-response (some blob) =
      let (bytes, encoded, decoded) = blob_laws.round_trip (record { blob = blob }) in
      rw (encoded, blob_response, decoded) refl

  -- Over a transport without errors, the client is told exactly what the server's cache holds: the
  -- blob under the key, or that there is none.
  pub client_get-told :
      (cache : lru.Cache) (key : String)
      → client_get lru put_json get_json blob_json fmt_int
          (λ body. inr (get_blob lru put_json get_json blob_json cache body).1)
          key
        ≡ told (lru.get cache key).1
  unfolding client_get get_blob
  client_get-told cache key =
      let (bytes, encoded, decoded) = get_laws.round_trip (record { key = key }) in
      rw (encoded, client_get, decoded, get_blob) (read-response (lru.get cache key).1)

  -- What was put is got: over a transport without errors, and if the cache holds what was just added
  -- and JSON gives back what it was given, the client's `PutBlob` reports no error, whatever the
  -- cache held before, and its `GetBlob` of the same key then returns the blob.
  pub put_then_get :
      (lru_laws : LruLaws lru) (cache : lru.Cache) (key : String) (blob : Blob)
      → (bytes : Bytes) × (put_json.encode (record { key = key; blob = blob }) ≡ inr bytes)
        × (client_put lru put_json get_json blob_json fmt_int
              (λ body. inr (put_blob lru put_json get_json blob_json cache body).1)
              key
              blob
            ≡ none)
        × (client_get lru put_json get_json blob_json fmt_int
              (λ body.
                inr
                  (get_blob lru put_json get_json blob_json
                    (put_blob lru put_json get_json blob_json cache bytes).0
                    body).1)
              key
            ≡ blob_found blob)
  unfolding client_put put_blob
  put_then_get lru_laws cache key blob =
      let (bytes, encoded, decoded) = put_laws.round_trip (record { key = key; blob = blob }) in
      let got : ((lru.get (put_blob lru put_json get_json blob_json cache bytes).0 key).1
          ≡ some blob) =
        rw (decoded, put_blob) (lru_laws.held cache key blob) in
      (
        bytes,
        encoded,
        rw (encoded, client_put, decoded, put_blob) refl,
        client_get-told (put_blob lru put_json get_json blob_json cache bytes).0 key ∙ ap told got,
      )
