-- ===== src/Server/History/Cache.antt =====
-- The entries of historyResponseCache: lookup, and storing with expiry and eviction. The list of
-- entries stands in the order in which the range loops meet them, which Go leaves open.
use server_status.Base.{
  ℕ, List, [], ◌∷◌, Option, none, some, Bool, not, ◌&&◌, ◌||◌, if◌then◌else◌, length,
}
use server_status.Base.Dict.{get, retain, delete, put}
use server_status.Base.Int.{ℤ, pos, ltb_ℤ}
use server_status.Base.Text.{Text, is_empty}

-- Nanoseconds since the zero time.
abbrev pub Time : Type 0
Time = ℤ

pub record CachedHistoryResponse : Type 0 where
  pub body : List ℕ
  pub gzip_body : List ℕ
  pub etag : Text
  pub expires_at : Time
  pub query_duration : ℤ
  pub encode_duration : ℤ

pub record HistoryResponseCache : Type 0 where
  pub entries : List (Text × CachedHistoryResponse)
  pub ttl : ℤ
  pub max_entries : ℤ

unfoldable pub new_history_response_cache : ℤ → ℤ → HistoryResponseCache
new_history_response_cache ttl max_entries = record {
  entries = [];
  ttl = ttl;
  max_entries = max_entries;
}

-- `now.Before(response.expiresAt)`
abbrev pub is_fresh : Time → Text × CachedHistoryResponse → Bool
is_fresh now e = ltb_ℤ now e.1.expires_at

-- `none` where the second result is false.
abbrev pub serve : Time → Option CachedHistoryResponse → Option CachedHistoryResponse
serve now none = none
serve now (some response) = if ltb_ℤ now response.expires_at then some response else none

unfoldable pub cached : HistoryResponseCache → Text → Time → Option CachedHistoryResponse
cached cache key now = serve now (get key cache.entries)

-- The loop that looks for the entry that expires first, from `oldestKey` and `oldestExpiry`.
unfoldable pub oldest_from : Text → Time → List (Text × CachedHistoryResponse) → Text
oldest_from oldest_key oldest_expiry [] = oldest_key
oldest_from oldest_key oldest_expiry (e ∷ es) =
    if is_empty oldest_key || ltb_ℤ e.1.expires_at oldest_expiry
    then oldest_from e.0 e.1.expires_at es
    else oldest_from oldest_key oldest_expiry es

-- Makes room for one entry.
unfoldable pub evict : ℤ → List (Text × CachedHistoryResponse) → List (Text × CachedHistoryResponse)
evict max_entries es =
    if ltb_ℤ (pos 0) max_entries && not (ltb_ℤ (pos (length es)) max_entries)
    then delete (oldest_from [] (pos 0) es) es
    else es

unfoldable pub store :
    HistoryResponseCache → Text → CachedHistoryResponse → Time → HistoryResponseCache
store cache key response now = record cache {
  entries = put key response (evict cache.max_entries (retain (is_fresh now) cache.entries));
}
