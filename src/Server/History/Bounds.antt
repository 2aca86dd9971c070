-- ===== src/Server/History/Bounds.antt =====
-- The size of the history cache.
use mathlib.Core.List.{Mem, Mem-prop, Nodup, mem-cons_self, mem-cons_of_mem, eq-or-mem_of_mem-cons}
use mathlib.Core.Logic.Or
use server_status.Base.{List, [], ◌∷◌, map, inl, inr, arith, length, Bool-cases, ◌||◌, ◌&&◌, not}
use server_status.Base.Dict.{
  key_of, retain, delete, put, length-retain, length-delete, Nodup-retain, Nodup-put,
}
use server_status.Base.Int.{ℤ, pos, ltb_ℤ, ◌≤ℤ◌, ◌<ℤ◌}
use server_status.Base.Text.{Text, is_empty, text_eq}
use server_status.Server.History.Cache.{
  HistoryResponseCache, CachedHistoryResponse, Time, store, evict, oldest_from, is_fresh,
}

-- The keys of a Go map differ; the cache keeps its limit, where it has one.
pub record IsWellFormed (cache : HistoryResponseCache) : Type 0 where
  pub keys : Nodup (map key_of cache.entries)
  pub bounded : pos 0 <ℤ cache.max_entries → pos (length cache.entries) ≤ℤ cache.max_entries

-- The loop returns the key it starts from or one that it meets.
pub oldest_from-Mem :
    (k : Text) (t : Time) (es : List (Text × CachedHistoryResponse))
    → Mem (oldest_from k t es) (k ∷ map key_of es)
unfolding oldest_from
oldest_from-Mem k t [] = mem-cons_self
oldest_from-Mem k t (e ∷ es) = elim (Bool-cases (is_empty k || ltb_ℤ e.1.expires_at t)) [
  | inl h ↦ rw h (mem-cons_of_mem k (oldest_from-Mem e.0 e.1.expires_at es))
  | inr h ↦ rw h (skip (oldest_from-Mem k t es))
]
  where
    skip : {a : Text} → Mem a (k ∷ map key_of es) → Mem a (k ∷ e.0 ∷ map key_of es)
    skip m =
        Or.elim Mem-prop (eq-or-mem_of_mem-cons m) (λ q. rw q mem-cons_self)
          (λ i. mem-cons_of_mem k (mem-cons_of_mem e.0 i))

length-evict :
    (max_entries : ℤ) (es : List (Text × CachedHistoryResponse))
    → pos 0 <ℤ max_entries
    → pos (length es) ≤ℤ max_entries
    → pos (length (evict max_entries es)) <ℤ max_entries
unfolding evict oldest_from
length-evict max_entries [] p b = ground (arith, p)
length-evict max_entries (e ∷ es) p b =
    let gone =
      length-delete (oldest_from e.0 e.1.expires_at es) (e ∷ es)
        (oldest_from-Mem e.0 e.1.expires_at es) in
    ground (arith, gone)

pub Nodup-evict :
    (max_entries : ℤ) (es : List (Text × CachedHistoryResponse))
    → Nodup (map key_of es)
    → Nodup (map key_of (evict max_entries es))
unfolding evict delete
Nodup-evict max_entries es n =
    elim (Bool-cases (ltb_ℤ (pos 0) max_entries && not (ltb_ℤ (pos (length es)) max_entries))) [
      | inl h ↦ rw h (Nodup-retain _ es n)
      | inr h ↦ rw h n
    ]

-- Storing keeps the keys different and the number of entries within a limit above zero.
pub store-IsWellFormed :
    (cache : HistoryResponseCache) (key : Text) (response : CachedHistoryResponse) (now : Time)
    → IsWellFormed cache
    → IsWellFormed (store cache key response now)
unfolding store put delete
store-IsWellFormed cache key response now w = record {
  keys =
      Nodup-put key response (evict cache.max_entries (retain (is_fresh now) cache.entries))
        (Nodup-evict cache.max_entries _ (Nodup-retain (is_fresh now) cache.entries w.keys));
  bounded = λ p.
      let live = length-retain (is_fresh now) cache.entries in
      let bounded = w.bounded p in
      let room =
        length-evict cache.max_entries (retain (is_fresh now) cache.entries) p
          (omega (arith, live, bounded)) in
      let fits =
        length-retain (λ e. not (text_eq e.0 key))
          (evict cache.max_entries (retain (is_fresh now) cache.entries)) in
      omega (arith, fits, room);
}
