-- ===== src/Server/History/Eviction.antt =====
-- Which entry of the history cache makes room: the one that expires first.
use mathlib.Core.List.{Mem, mem-cons_self, mem-cons_of_mem}
use mathlib.Core.Path.{subst}
use server_status.Base.{
  List, [], ◌∷◌, ◌≡◌, ◌≢◌, refl, sym, inl, inr, arith, Bool-cases, ◌||◌, All, ◌⊎◌,
}
use server_status.Base.Int.{pos, ltb_ℤ, ◌≤ℤ◌}
use server_status.Base.Text.{Text, is_empty, is_empty-false_iff}
use server_status.Server.History.Cache.{CachedHistoryResponse, Time, oldest_from}

-- The loop's answer: a key that expires at `expiry`, no later than what the loop has met.
record IsFirstExpiry (k : Text) (t : Time) (es : List (Text × CachedHistoryResponse)) : Type 0 where
  expiry : Time
  before_start : expiry ≤ℤ t
  before_all : All (λ e. expiry ≤ℤ e.1.expires_at) es
  found :
      ((oldest_from k t es ≡ k) × (expiry ≡ t))
      ⊎ ((r : CachedHistoryResponse) × Mem (oldest_from k t es, r) es × (r.expires_at ≡ expiry))

oldest_from-IsFirstExpiry :
    (k : Text) (t : Time) (es : List (Text × CachedHistoryResponse))
    → k ≢ []
    → All (λ e. e.0 ≢ []) es
    → IsFirstExpiry k t es
unfolding oldest_from
oldest_from-IsFirstExpiry k t [] h n = record {
  expiry = t;
  before_start = omega arith;
  before_all = tt;
  found = inl (refl, refl);
}
oldest_from-IsFirstExpiry k t ((j, r) ∷ es) h (m, n) =
    elim (Bool-cases (is_empty k || ltb_ℤ r.expires_at t)) [
      | inl b ↦
          let o = oldest_from-IsFirstExpiry j r.expires_at es m n in
          let sooner : r.expires_at ≤ℤ t = ground (arith, is_empty-false_iff k, b) in
          let start = o.before_start in
          record {
            expiry = o.expiry;
            before_start = omega (arith, start, sooner);
            before_all = (start, o.before_all);
            found = rw b (elim o.found [
              | inl (q, u) ↦ inr (r, rw q mem-cons_self, sym u)
              | inr (s, i, u) ↦ inr (s, mem-cons_of_mem (j, r) i, u)
            ]);
          }
      | inr b ↦
          let o = oldest_from-IsFirstExpiry k t es h n in
          let later : t ≤ℤ r.expires_at = ground (arith, b) in
          let start = o.before_start in
          record {
            expiry = o.expiry;
            before_start = start;
            before_all = (omega (arith, start, later), o.before_all);
            found = rw b (elim o.found [
              | inl q ↦ inl q
              | inr (s, i, u) ↦ inr (s, mem-cons_of_mem (j, r) i, u)
            ]);
          }
    ]

All-from :
    (a b : Time) (es : List (Text × CachedHistoryResponse))
    → b ≡ a
    → All (λ e. a ≤ℤ e.1.expires_at) es
    → All (λ e. b ≤ℤ e.1.expires_at) es
All-from a b es q h = subst (λ x. All (λ e. x ≤ℤ e.1.expires_at) es) (sym q) h

-- Among entries under keys that are not empty, the key that is evicted has an entry that expires no
-- later than any other.
pub oldest_from-expires_first :
    (e : Text × CachedHistoryResponse) (es : List (Text × CachedHistoryResponse))
    → All (λ f. f.0 ≢ []) (e ∷ es)
    → (r : CachedHistoryResponse) × Mem (oldest_from [] (pos 0) (e ∷ es), r) (e ∷ es)
      × All (λ f. r.expires_at ≤ℤ f.1.expires_at) (e ∷ es)
unfolding oldest_from
oldest_from-expires_first e es (m, n) =
    let o = oldest_from-IsFirstExpiry e.0 e.1.expires_at es m n in
    elim o.found [
      | inl (q, u) ↦ (
        e.1,
        rw q mem-cons_self,
        (omega arith, All-from o.expiry e.1.expires_at es (sym u) o.before_all),
      )
      | inr (r, i, u) ↦ (
        r,
        mem-cons_of_mem e i,
        (rw u o.before_start, All-from o.expiry r.expires_at es u o.before_all),
      )
    ]
