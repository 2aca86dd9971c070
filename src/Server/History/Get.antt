-- ===== src/Server/History/Get.antt =====
-- get of history_cache.go: one request for a node history, through the cache and the shared load.
pub mod Served
pub mod Failed
use server_status.Base.{
  ℕ, List, [], ◌∷◌, map, Option, none, some, Bool, true, false, ◌++◌, ◌≡◌, refl, arith, ap, ◌∙◌,
  inl, inr, ◌⊎◌, if◌then◌else◌, All, Option-cases,
}
use server_status.Base.Int.{ℤ, ◌+ℤ◌, ◌<ℤ◌}
use server_status.Base.Text.{Text, codes}
use server_status.Server.History.Cache.{
  HistoryResponseCache, CachedHistoryResponse, Time, cached, store,
}
use server_status.Server.History.Bounds.{IsWellFormed, store-IsWellFormed}
use server_status.Server.History.Lookup.{cached-store, cached_later}

-- The libraries that get calls. `none` is their error.
pub record Encoder (History : Type 0) : Type 0 where
  pub marshal : History → Option (List ℕ)
  pub gzip : List ℕ → Option (List ℕ)
  pub sha256_hex : List ℕ → Text

pub data GetError (Error : Type 0) : Type 0 where
  load_failed : Error → GetError Error
  encode_failed compress_failed context_done : GetError Error

-- What a shared load meets: the times it reads, how long its parts take, and the store's answer.
pub record Load (History Error : Type 0) : Type 0 where
  pub started_at : Time
  pub completed_at : Time
  pub query_duration : ℤ
  pub encode_duration : ℤ
  pub history : Error ⊎ History

-- A call for some key: the time, whether its context ends first, and what its load would meet.
pub record Request (History Error : Type 0) : Type 0 where
  pub now : Time
  pub cancelled : Bool
  pub load : Load History Error

-- What a call returns: a response and whether the cache had it, or an error.
pub data Answer (Error : Type 0) : Type 0 where
  served : CachedHistoryResponse → Bool → Answer Error
  failed : GetError Error → Answer Error

module _ {History Error : Type 0} (encoder : Encoder History) where
  -- The response made of a history, or the error.
  unfoldable pub encode :
      HistoryResponseCache → Load History Error → History → GetError Error ⊎ CachedHistoryResponse
  encode cache load history = elim (encoder.marshal history) [
    | none ↦ inl encode_failed
    | some body ↦ elim (encoder.gzip body) [
      | none ↦ inl compress_failed
      | some gzip_body ↦ inr (record {
        body = body;
        gzip_body = gzip_body;
        etag = codes "W/\"" ++ encoder.sha256_hex body ++ codes "\"";
        expires_at = load.completed_at +ℤ cache.ttl;
        query_duration = load.query_duration;
        encode_duration = load.encode_duration;
      })
    ]
  ]

  -- What follows the load: errors are not stored.
  unfoldable pub finish :
      HistoryResponseCache
      → Text
      → Load History Error
      → GetError Error ⊎ CachedHistoryResponse
      → (GetError Error ⊎ CachedHistoryResponse) × HistoryResponseCache
  finish cache key load (inl e) = (inl e, cache)
  finish cache key load (inr r) = (inr r, store cache key r load.completed_at)

  unfoldable pub load_into :
      HistoryResponseCache
      → Text
      → Load History Error
      → Error ⊎ History
      → (GetError Error ⊎ CachedHistoryResponse) × HistoryResponseCache
  unfolding finish
  load_into cache key load (inl e) = (inl (load_failed e), cache)
  load_into cache key load (inr history) = finish cache key load (encode cache load history)

  unfoldable pub fly_from :
      HistoryResponseCache
      → Text
      → Load History Error
      → Option CachedHistoryResponse
      → (GetError Error ⊎ CachedHistoryResponse) × HistoryResponseCache
  unfolding load_into
  fly_from cache key load (some response) = (inr response, cache)
  fly_from cache key load none = load_into cache key load load.history

  -- The function that DoChan runs once for all the requests of a key.
  unfoldable pub fly :
      HistoryResponseCache
      → Text
      → Load History Error
      → (GetError Error ⊎ CachedHistoryResponse) × HistoryResponseCache
  unfolding fly_from
  fly cache key load = fly_from cache key load (cached cache key load.started_at)

  abbrev pub answer : GetError Error ⊎ CachedHistoryResponse → Answer Error
  answer (inl e) = failed e
  answer (inr response) = served response false

  abbrev pub get_from :
      HistoryResponseCache
      → Text
      → Bool
      → Load History Error
      → Option CachedHistoryResponse
      → Answer Error × HistoryResponseCache
  get_from cache key cancelled load (some response) = (served response true, cache)
  get_from cache key cancelled load none =
      let (result, after) = fly cache key load in
      (if cancelled then failed context_done else answer result, after)

  -- `cancelled` says that select sees the end of the context and not the result of the load, which
  -- goes on.
  unfoldable pub get :
      HistoryResponseCache
      → Text
      → Time
      → Bool
      → Load History Error
      → Answer Error × HistoryResponseCache
  get cache key now cancelled load = get_from cache key cancelled load (cached cache key now)

  fly-IsWellFormed :
      (cache : HistoryResponseCache) (key : Text) (load : Load History Error)
      → IsWellFormed cache
      → IsWellFormed (fly cache key load).1
  unfolding fly
  fly-IsWellFormed cache key load w = from (cached cache key load.started_at)
    where
      finished :
          (o : GetError Error ⊎ CachedHistoryResponse) → IsWellFormed (finish cache key load o).1
      finished (inl e) = w
      finished (inr r) = store-IsWellFormed cache key r load.completed_at w

      loaded : (h : Error ⊎ History) → IsWellFormed (load_into cache key load h).1
      loaded (inl e) = w
      loaded (inr history) = finished (encode cache load history)

      from : (o : Option CachedHistoryResponse) → IsWellFormed (fly_from cache key load o).1
      from (some r) = w
      from none = loaded load.history

  -- Requests keep the cache well formed, whatever their loads meet.
  pub get-IsWellFormed :
      (cache : HistoryResponseCache) (key : Text) (now : Time) (cancelled : Bool)
      (load : Load History Error)
      → IsWellFormed cache
      → IsWellFormed (get cache key now cancelled load).1
  unfolding get
  get-IsWellFormed cache key now cancelled load w = from (cached cache key now)
    where
      from :
          (o : Option CachedHistoryResponse) → IsWellFormed (get_from cache key cancelled load o).1
      from (some r) = w
      from none = fly-IsWellFormed cache key load w
