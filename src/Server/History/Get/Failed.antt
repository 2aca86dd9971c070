-- ===== src/Server/History/Get/Failed.antt =====
-- Requests that fail: get of history_cache.go.
use server_status.Base.{
  ℕ, List, Option, none, some, Bool, true, false, ◌≡◌, refl, arith, ap, ◌∙◌, inl, inr, ◌⊎◌,
  Option-cases,
}
use server_status.Base.Text.{Text}
use server_status.Server.History.Cache.{HistoryResponseCache, CachedHistoryResponse, Time, cached}
use server_status.Server.History.Get.{
  Encoder, Load, GetError, load_failed, encode_failed, compress_failed, context_done, failed,
  encode, finish, load_into, fly_from, fly, answer, get_from, get,
}

module _ {History Error : Type 0} (encoder : Encoder History) where
  -- What makes a load fail with an error.
  pub data IsCause (load : Load History Error) : GetError Error → Type 0 where
    by_load : (e : Error) → load.history ≡ inl e → IsCause load (load_failed e)
    by_encoding :
        (history : History)
        → load.history ≡ inr history
        → encoder.marshal history ≡ none
        → IsCause load encode_failed
    by_compression :
        (history : History) (body : List ℕ)
        → load.history ≡ inr history
        → encoder.marshal history ≡ some body
        → encoder.gzip body ≡ none
        → IsCause load compress_failed

  encode-IsCause :
      (cache : HistoryResponseCache) (load : Load History Error) (history : History)
      (e : GetError Error)
      → load.history ≡ inr history
      → encode encoder cache load history ≡ inl e
      → IsCause load e
  unfolding encode
  encode-IsCause cache load history e found h = elim (Option-cases (encoder.marshal history)) [
    | inl m ↦
        let same : encode_failed ≡ e = ground (arith, rw (m, encode) at h) in
        let cause : IsCause load encode_failed = by_encoding history found m in rw same at cause
    | inr (body, m) ↦ elim (Option-cases (encoder.gzip body)) [
      | inl g ↦
          let same : compress_failed ≡ e = ground (arith, rw (m, encode, g) at h) in
          let cause : IsCause load compress_failed = by_compression history body found m g in
          rw same at cause
      | inr (bytes, g) ↦ absurd (ground (arith, rw (m, encode, g) at h))
    ]
  ]

  fly-failed :
      (cache : HistoryResponseCache) (key : Text) (load : Load History Error) (e : GetError Error)
      → (fly encoder cache key load).0 ≡ inl e
      → ((fly encoder cache key load).1 ≡ cache) × IsCause load e
  unfolding fly
  fly-failed cache key load e h = from (cached cache key load.started_at) h
    where
      finished :
          (history : History) (o : GetError Error ⊎ CachedHistoryResponse)
          → load.history ≡ inr history
          → encode encoder cache load history ≡ o
          → (finish encoder cache key load o).0 ≡ inl e
          → ((finish encoder cache key load o).1 ≡ cache) × IsCause load e
      finished history (inl x) found c q =
          let same : x ≡ e = ground (arith, q) in
          (refl, encode-IsCause cache load history e found (c ∙ ap inl same))
      finished history (inr r) found c q = absurd (ground (arith, q))

      loaded :
          (t : Error ⊎ History)
          → load.history ≡ t
          → (load_into encoder cache key load t).0 ≡ inl e
          → ((load_into encoder cache key load t).1 ≡ cache) × IsCause load e
      loaded (inl x) found q =
          let same : load_failed x ≡ e = ground (arith, q) in
          let cause : IsCause load (load_failed x) = by_load x found in (refl, rw same at cause)
      loaded (inr history) found q =
          finished history (encode encoder cache load history) found refl q

      from :
          (o : Option CachedHistoryResponse)
          → (fly_from encoder cache key load o).0 ≡ inl e
          → ((fly_from encoder cache key load o).1 ≡ cache) × IsCause load e
      from (some r) q = absurd (ground (arith, q))
      from none q = loaded load.history refl q

  -- A request that fails either met the end of its context, or fails with the error of its load, of
  -- encoding or of compressing the history, and then the cache is as it was: no error is stored.
  pub get-failed :
      (cache : HistoryResponseCache) (key : Text) (now : Time) (cancelled : Bool)
      (load : Load History Error) (e : GetError Error)
      → (get encoder cache key now cancelled load).0 ≡ failed e
      → ((cancelled ≡ true) × (e ≡ context_done))
        ⊎ (((get encoder cache key now cancelled load).1 ≡ cache) × IsCause load e)
  unfolding get
  get-failed cache key now cancelled load e h = from (cached cache key now) cancelled h
    where
      flown : (o : GetError Error ⊎ CachedHistoryResponse) → answer encoder o ≡ failed e → o ≡ inl e
      flown (inl x) q = ground (arith, q)
      flown (inr r) q = absurd (ground (arith, q))

      from :
          (o : Option CachedHistoryResponse) (c : Bool)
          → (get_from encoder cache key c load o).0 ≡ failed e
          → ((c ≡ true) × (e ≡ context_done))
            ⊎ (((get_from encoder cache key c load o).1 ≡ cache) × IsCause load e)
      from (some r) c q = absurd (ground (arith, q))
      from none true q = inl (refl, ground (arith, q))
      from none false q = inr (fly-failed cache key load e (flown _ q))
