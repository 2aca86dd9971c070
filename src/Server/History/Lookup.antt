-- ===== src/Server/History/Lookup.antt =====
-- What the history cache serves after a response is stored.
use mathlib.Core.List.{Nodup}
use server_status.Base.{
  List, [], map, true, Option, none, some, ◌≡◌, ◌≢◌, ◌↔◌, refl, sym, ◌∙◌, inl, inr, arith, length,
  Bool-cases, ◌&&◌, not, Bool,
}
use server_status.Base.Dict.{
  key_of, keep_if, get, retain, delete, get-put, get-put_other, get-retain, Nodup-retain,
}
use server_status.Base.Int.{ℤ, pos, ltb_ℤ, ◌≤ℤ◌, ◌<ℤ◌}
use server_status.Base.Text.{Text, text_eq}
use server_status.Server.History.Cache.{
  HistoryResponseCache, CachedHistoryResponse, Time, store, evict, oldest_from, is_fresh, cached,
  serve,
}
use server_status.Server.History.Bounds.{IsWellFormed, Nodup-evict}

-- A response is served from its key until it expires.
pub cached-store :
    (cache : HistoryResponseCache) (key : Text) (response : CachedHistoryResponse)
    (now later : Time)
    → later <ℤ response.expires_at
    → cached (store cache key response now) key later ≡ some response
unfolding cached store
cached-store cache key response now later h =
    rw (get-put key response (evict cache.max_entries (retain (is_fresh now) cache.entries)))
      (ground arith)

serve_iff :
    (now : Time) (o : Option CachedHistoryResponse) (r : CachedHistoryResponse)
    → (serve now o ≡ some r) ↔ ((o ≡ some r) × (now <ℤ r.expires_at))
serve_iff now none r = ground arith
serve_iff now (some s) r = ground arith

keep_if-some :
    {A : Type 0} (p : Text × A → Bool) (k : Text) (o : Option A) (a : A)
    → keep_if p k o ≡ some a
    → o ≡ some a
keep_if-some p k none a h = h
keep_if-some p k (some b) a h = ground arith

get-evict :
    (max_entries : ℤ) (es : List (Text × CachedHistoryResponse)) (k : Text)
    (r : CachedHistoryResponse)
    → Nodup (map key_of es)
    → get k (evict max_entries es) ≡ some r
    → get k es ≡ some r
unfolding evict delete
get-evict max_entries es k r n h =
    elim (Bool-cases (ltb_ℤ (pos 0) max_entries && not (ltb_ℤ (pos (length es)) max_entries))) [
      | inl t ↦
          keep_if-some (λ e. not (text_eq e.0 (oldest_from [] (pos 0) es))) k (get k es) r
            (sym (get-retain _ k es n) ∙ (rw t at h))
      | inr t ↦ rw t at h
    ]

-- Storing a response under one key makes the cache serve nothing new under another.
pub cached-store_other :
    (cache : HistoryResponseCache) (key other : Text) (response r : CachedHistoryResponse)
    (now later : Time)
    → IsWellFormed cache
    → other ≢ key
    → cached (store cache key response now) other later ≡ some r
    → cached cache other later ≡ some r
unfolding cached store
cached-store_other cache key other response r now later w d h =
    let live = Nodup-retain (is_fresh now) cache.entries w.keys in
    let (found, fresh) = (serve_iff later _ r).0 h in
    let kept =
      sym (get-put_other other key response _ (Nodup-evict cache.max_entries _ live) d) ∙ found in
    let there = get-evict cache.max_entries _ other r live kept in
    (serve_iff later _ r).1 (
      keep_if-some (is_fresh now) other (get other cache.entries) r
          (sym (get-retain (is_fresh now) other cache.entries w.keys) ∙ there),
      fresh,
    )

evict_room :
    (max_entries : ℤ) (es : List (Text × CachedHistoryResponse))
    → pos (length es) <ℤ max_entries
    → evict max_entries es ≡ es
unfolding evict
evict_room max_entries es h = ground arith

keep_if-met :
    {A : Type 0} (p : Text × A → Bool) (k : Text) (a : A)
    → p (k, a) ≡ true
    → keep_if p k (some a) ≡ some a
keep_if-met p k a h = rw h refl

-- While the fresh entries are fewer than the limit, storing a response forgets none of them.
pub cached-store_room :
    (cache : HistoryResponseCache) (key other : Text) (response r : CachedHistoryResponse)
    (now later : Time)
    → IsWellFormed cache
    → pos (length (retain (is_fresh now) cache.entries)) <ℤ cache.max_entries
    → other ≢ key
    → now ≤ℤ later
    → cached cache other later ≡ some r
    → cached (store cache key response now) other later ≡ some r
unfolding cached store
cached-store_room cache key other response r now later w room d order h =
    let live = Nodup-retain (is_fresh now) cache.entries w.keys in
    let (found, fresh) = (serve_iff later _ r).0 h in
    let kept =
      get-retain (is_fresh now) other cache.entries w.keys
      ∙ (rw found (keep_if-met (is_fresh now) other r (ground arith))) in
    (serve_iff later _ r).1 (
      get-put_other other key response _ (Nodup-evict cache.max_entries _ live) d
          ∙ (rw (evict_room cache.max_entries (retain (is_fresh now) cache.entries) room) kept),
      fresh,
    )

-- A response that is served is served until it expires.
pub cached_later :
    (cache : HistoryResponseCache) (key : Text) (r : CachedHistoryResponse) (now later : Time)
    → cached cache key now ≡ some r
    → later <ℤ r.expires_at
    → cached cache key later ≡ some r
unfolding cached
cached_later cache key r now later h l =
    (serve_iff later (get key cache.entries) r).1 (((serve_iff now _ r).0 h).0, l)
