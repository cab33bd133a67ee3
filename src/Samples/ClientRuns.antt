-- ===== src/Samples/ClientRuns.antt =====
-- A report that the server accepts, and a blob that is put and got.
use kvisor.Base.{
  ℕ, ◌+◌, ◌≤◌, String, GoMap, lookup, insert, lookup-insert_self, List, [], ◌∷◌, Option, some, none,
  Bool, true, false, ◌≡◌, ◌≢◌, ◌↔◌, refl, ◌⊎◌, inl, inr,
}
use kvisor.Client.{Answer, answered, Sent, send_report}
use kvisor.Client.Once.{RetryLaws, Accepted, send_report_once}
use kvisor.BlobsCache.{
  Codec, Lru, PubBlobRequest, GetBlobRequest, GetBlobResponse, blob_found, put_blob, get_blob,
  client_put, client_get,
}
use kvisor.BlobsCache.RoundTrip.{CodecLaws, LruLaws, put_then_get}

abbrev show : ℕ → String
show n = "0"

-- A backoff that makes one attempt more after each that is neither done nor an error.
abbrev more : Bool × Option String → ℕ × Option String → ℕ × Option String
more (true, err) rest = (1, err)
more (false, some err) rest = (1, some err)
more (false, none) (made, err) = (1 + made, err)

abbrev retried : (Answer → Bool × Option String) → List Answer → ℕ × Option String
retried cond [] = (0, some "context deadline exceeded")
retried cond (x ∷ xs) = more (cond x) (retried cond xs)

more_stops :
    (answer : Bool × Option String) (rest : ℕ × Option String)
    → ((answer.0 ≡ true) ⊎ (answer.1 ≢ none))
    → more answer rest ≡ (1, answer.1)
more_stops (true, err) rest h = refl
more_stops (false, some err) rest h = refl
more_stops (false, none) rest (inl h) = cc
more_stops (false, none) rest (inr h) = absurd (h refl)

retried-RetryLaws : RetryLaws retried
retried-RetryLaws = record {
  stops = λ cond x xs h. more_stops (cond x) (retried cond xs) h;
  ended = λ cond. (refl, λ e. cc);
}

abbrev responses : List Answer
responses = answered 200 "ok" ∷ []

send_report_once_example :
    (sent : Sent) × (send_report show retried "https://api" "delta" none none responses ≡ some sent)
    × (sent.requests ≤ 1)
    × ((sent.result ≡ none) ↔ (
        (Path (Option String) none none) × (Path (Option String) none none) × Accepted responses))
send_report_once_example =
    send_report_once show retried retried-RetryLaws "https://api" "delta" none none responses

-- Messages that are sent as they are.
abbrev Message : Type 0
Message = PubBlobRequest String ⊎ (GetBlobRequest ⊎ GetBlobResponse String)

abbrev put_codec : Codec Message (PubBlobRequest String)
put_codec = record {
  encode = λ x. inr (inl x);
  decode = λ m. elim m [ inl x ↦ inr x | inr other ↦ inl "unexpected" ];
}

abbrev get_codec : Codec Message GetBlobRequest
get_codec = record {
  encode = λ x. inr (inr (inl x));
  decode = λ m. elim m [
    | inl x ↦ inl "unexpected"
    | inr other ↦ elim other [ inl x ↦ inr x | inr y ↦ inl "unexpected" ]
  ];
}

abbrev blob_codec : Codec Message (GetBlobResponse String)
blob_codec = record {
  encode = λ x. inr (inr (inr x));
  decode = λ m. elim m [
    | inl x ↦ inl "unexpected"
    | inr other ↦ elim other [ inl x ↦ inl "unexpected" | inr y ↦ inr y ]
  ];
}

-- A cache that forgets nothing.
abbrev store : Lru String
store = record {
  Cache = GoMap String;
  add = λ cache key blob. insert key blob cache;
  get = λ cache key. (cache, lookup key cache);
}

put_laws : CodecLaws put_codec
put_laws = record { round_trip = λ x. (inl x, refl, refl) }

get_laws : CodecLaws get_codec
get_laws = record { round_trip = λ x. (inr (inl x), refl, refl) }

blob_laws : CodecLaws blob_codec
blob_laws = record { round_trip = λ x. (inr (inr x), refl, refl) }

store_laws : LruLaws store
store_laws = record { held = λ cache key blob. lookup-insert_self key blob cache }

put_then_get_example :
    (bytes : Message) × (put_codec.encode (record { key = "b1"; blob = "layer" }) ≡ inr bytes)
    × (client_put store put_codec get_codec blob_codec show
          (λ body. inr (put_blob store put_codec get_codec blob_codec [] body).1)
          "b1"
          "layer"
        ≡ none)
    × (client_get store put_codec get_codec blob_codec show
          (λ body.
            inr
              (get_blob store put_codec get_codec blob_codec
                (put_blob store put_codec get_codec blob_codec [] bytes).0
                body).1)
          "b1"
        ≡ blob_found "layer")
put_then_get_example =
    put_then_get store put_codec get_codec blob_codec put_laws get_laws blob_laws show store_laws []
      "b1" "layer"
