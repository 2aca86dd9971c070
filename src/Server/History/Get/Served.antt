-- ===== src/Server/History/Get/Served.antt =====
-- Requests served from the cache: get of history_cache.go.
use server_status.Base.{
  List, [], ◌∷◌, map, Option, none, some, Bool, true, false, ◌≡◌, refl, arith, ap, ◌∙◌, inl, inr,
  ◌⊎◌, All,
}
use server_status.Base.Int.{◌<ℤ◌}
use server_status.Base.Text.{Text}
use server_status.Server.History.Cache.{HistoryResponseCache, CachedHistoryResponse, Time, cached}
use server_status.Server.History.Lookup.{cached-store, cached_later}
use server_status.Server.History.Get.{
  Encoder, Load, Request, GetError, Answer, served, encode, finish, load_into, fly_from, fly,
  answer, get_from, get,
}

module _ {History Error : Type 0} (encoder : Encoder History) where
  fly-cached :
      (cache : HistoryResponseCache) (key : Text) (load : Load History Error)
      (r : CachedHistoryResponse) (later : Time)
      → (fly encoder cache key load).0 ≡ inr r
      → later <ℤ r.expires_at
      → cached (fly encoder cache key load).1 key later ≡ some r
  unfolding fly
  fly-cached cache key load r later h l = from (cached cache key load.started_at) refl h
    where
      finished :
          (o : GetError Error ⊎ CachedHistoryResponse)
          → (finish encoder cache key load o).0 ≡ inr r
          → cached (finish encoder cache key load o).1 key later ≡ some r
      finished (inl e) q = absurd (ground arith)
      finished (inr s) q =
          let same : s ≡ r = ground arith in
          rw same (cached-store cache key r load.completed_at later l)

      loaded :
          (t : Error ⊎ History)
          → (load_into encoder cache key load t).0 ≡ inr r
          → cached (load_into encoder cache key load t).1 key later ≡ some r
      loaded (inl e) q = absurd (ground arith)
      loaded (inr history) q = finished (encode encoder cache load history) q

      from :
          (o : Option CachedHistoryResponse)
          → cached cache key load.started_at ≡ o
          → (fly_from encoder cache key load o).0 ≡ inr r
          → cached (fly_from encoder cache key load o).1 key later ≡ some r
      from none e q = loaded load.history q
      from (some s) e q =
          let same : s ≡ r = ground arith in
          cached_later cache key r load.started_at later (e ∙ ap some same) l

  -- The request after one that was served.
  get-served_next :
      (cache : HistoryResponseCache) (key : Text) (now : Time) (load : Load History Error)
      (r : CachedHistoryResponse) (hit : Bool) (later : Time) (cancelled : Bool)
      (unused : Load History Error)
      → (get encoder cache key now false load).0 ≡ served r hit
      → later <ℤ r.expires_at
      → get encoder (get encoder cache key now false load).1 key later cancelled unused
        ≡ (served r true, (get encoder cache key now false load).1)
  unfolding get
  get-served_next cache key now load r hit later cancelled unused h l =
      from (cached cache key now) refl h
    where
      again : HistoryResponseCache → Answer Error × HistoryResponseCache
      again after = get encoder after key later cancelled unused

      hit_again :
          (after : HistoryResponseCache)
          → cached after key later ≡ some r
          → again after ≡ (served r true, after)
      hit_again after q = rw q refl

      flown :
          (o : GetError Error ⊎ CachedHistoryResponse) → answer encoder o ≡ served r hit → o ≡ inr r
      flown (inl e) q = absurd (ground arith)
      flown (inr s) q = ground arith

      from :
          (o : Option CachedHistoryResponse)
          → cached cache key now ≡ o
          → (get_from encoder cache key false load o).0 ≡ served r hit
          → again (get_from encoder cache key false load o).1
            ≡ (served r true, (get_from encoder cache key false load o).1)
      from (some s) e q =
          let same : s ≡ r = ground arith in
          hit_again cache (cached_later cache key r now later (e ∙ ap some same) l)
      from none e q =
          hit_again (fly encoder cache key load).1 (fly-cached cache key load r later (flown _ q) l)

  -- Requests for one key, one after the other: their answers, and the cache behind the last.
  unfoldable pub get_each :
      HistoryResponseCache
      → Text
      → List (Request History Error)
      → List (Answer Error) × HistoryResponseCache
  get_each cache key [] = ([], cache)
  get_each cache key (q ∷ qs) =
      let (answered, after) = get encoder cache key q.now q.cancelled q.load in
      let (answers, last) = get_each after key qs in (answered ∷ answers, last)

  -- Where a request was served, the requests for its key that come next, with none for another key in
  -- between and each before the response expires, are all served the same response by the cache, and
  -- they leave the cache as it was.
  pub get-served_again :
      (cache : HistoryResponseCache) (key : Text) (now : Time) (load : Load History Error)
      (r : CachedHistoryResponse) (hit : Bool) (later : List (Request History Error))
      → (get encoder cache key now false load).0 ≡ served r hit
      → All (λ q. q.now <ℤ r.expires_at) later
      → get_each (get encoder cache key now false load).1 key later
        ≡ (map (λ q. served r true) later, (get encoder cache key now false load).1)
  unfolding get_each
  get-served_again cache key now load r hit [] h l = refl
  get-served_again cache key now load r hit (q ∷ qs) h (before, l) =
      rw
        (
          get-served_next cache key now load r hit q.now q.cancelled q.load h before,
          get-served_again cache key now load r hit qs h l,
        )
        refl
