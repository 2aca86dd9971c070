-- ===== src/Server/Tests.antt =====
-- Runs of internal/server, and the theorems at concrete values.
use mathlib.Core.List.{Nodup-nil, not-mem-nil}
use mathlib.Core.List.Pairwise
use server_status.Base.{
  ℕ, [], ◌∷◌, ◌⊎◌, some, true, false, ◌≡◌, ◌≢◌, ◌↔◌, refl, inl, inr, arith, length,
}
use server_status.Base.Dict
use server_status.Base.Dict.{put, retain, delete}
use server_status.Base.Decimal.{split}
use server_status.Base.Int.{pos, ◌+ℤ◌, ◌<ℤ◌}
use server_status.Base.Text.{Text, codes, text_eq, trim_space, trim_left, trim_right, is_space}
use server_status.Server.History.Cache.{
  CachedHistoryResponse, HistoryResponseCache, is_fresh, store, cached, evict, oldest_from,
  new_history_response_cache,
}
use server_status.Server.History.Bounds.{IsWellFormed}
use server_status.Server.History.Lookup.{cached-store}
use server_status.Server.History.Get
use server_status.Server.History.Get.{
  Encoder, Load, Answer, context_done, served, failed, load_failed, fly, finish, encode,
  get-IsWellFormed,
}
use server_status.Server.History.Get.Served.{get_each, get-served_again}
use server_status.Server.History.Get.Failed.{IsCause, get-failed}
use server_status.Server.History.Response.{etag_matches, any_matches, HasMatch, etag_matches_iff}

program : Unit {0}
unfolding Dict.get put retain delete split ◌+ℤ◌ text_eq trim_space trim_left trim_right is_space
    store cached evict oldest_from new_history_response_cache Get.get fly finish encode etag_matches
    any_matches
program = tt

abbrev empty : HistoryResponseCache
empty = record { entries = []; ttl = pos 30; max_entries = pos 2 }

abbrev response_until : ℕ → CachedHistoryResponse
response_until time = record {
  body = 1 ∷ [];
  gzip_body = [];
  etag = codes "W/\"a\"";
  expires_at = pos time;
  query_duration = pos 1;
  encode_duration = pos 1;
}

abbrev one_entry : HistoryResponseCache
one_entry = record empty { entries = (codes "a", response_until 40) ∷ [] }

one_entry-IsWellFormed : IsWellFormed one_entry
one_entry-IsWellFormed = record {
  keys = Pairwise.cons (λ x m. absurd (not-mem-nil m)) Nodup-nil;
  bounded = λ p. omega arith;
}

cached-store_example :
    cached (store one_entry (codes "b") (response_until 50) (pos 20)) (codes "b") (pos 49)
    ≡ some (response_until 50)
cached-store_example =
    cached-store one_entry (codes "b") (response_until 50) (pos 20) (pos 49) (omega arith)

differ : codes "a" ≢ codes "b"
differ = λ h. absurd (ground (arith, h))

served_after :
    cached (store one_entry (codes "b") (response_until 50) (pos 20)) (codes "a") (pos 30)
    ≡ some (response_until 40)
unfolding program
served_after = refl

served_before : cached one_entry (codes "a") (pos 30) ≡ some (response_until 40)
unfolding program
served_before = refl

room : pos (length (retain (is_fresh (pos 20)) one_entry.entries)) <ℤ one_entry.max_entries
unfolding program
room = omega arith

abbrev toy_encoder : Encoder ℕ
toy_encoder = record { marshal = λ n. some (n ∷ []); gzip = λ b. some b; sha256_hex = λ b. b }

abbrev good_load : Load ℕ Text
good_load = record {
  started_at = pos 1;
  completed_at = pos 2;
  query_duration = pos 1;
  encode_duration = pos 0;
  history = inr 7;
}

abbrev bad_load : Load ℕ Text
bad_load = record good_load { history = inl (codes "down") }

abbrev loaded : CachedHistoryResponse
loaded = record {
  body = 7 ∷ [];
  gzip_body = 7 ∷ [];
  etag = codes "W/\"\u{7}\"";
  expires_at = pos 32;
  query_duration = pos 1;
  encode_duration = pos 0;
}

loads : (Get.get toy_encoder empty (codes "k") (pos 0) false good_load).0 ≡ served loaded false
unfolding program
loads = refl

abbrev request_at : ℕ → Get.Request ℕ Text
request_at n = record { now = pos n; cancelled = false; load = bad_load }

get-served_again_example :
    get_each toy_encoder
      (Get.get toy_encoder empty (codes "k") (pos 0) false good_load).1
      (codes "k")
      (request_at 20 ∷ request_at 31 ∷ [])
    ≡ (
      served loaded true ∷ served loaded true ∷ [],
      (Get.get toy_encoder empty (codes "k") (pos 0) false good_load).1,
    )
get-served_again_example =
    get-served_again toy_encoder empty (codes "k") (pos 0) good_load loaded false
      (request_at 20 ∷ request_at 31 ∷ []) loads (omega arith, (omega arith, tt))

fails :
    (Get.get toy_encoder empty (codes "k") (pos 0) false bad_load).0
    ≡ failed (load_failed (codes "down"))
unfolding program
fails = refl

get-failed_example :
    ((false ≡ true) × (load_failed (codes "down") ≡ context_done))
    ⊎ (((Get.get toy_encoder empty (codes "k") (pos 0) false bad_load).1 ≡ empty)
        × IsCause toy_encoder bad_load (load_failed (codes "down")))
get-failed_example =
    get-failed toy_encoder empty (codes "k") (pos 0) false bad_load (load_failed (codes "down"))
      fails

get-IsWellFormed_example :
    IsWellFormed (Get.get toy_encoder one_entry (codes "k") (pos 50) true good_load).1
get-IsWellFormed_example =
    get-IsWellFormed toy_encoder one_entry (codes "k") (pos 50) true good_load
      one_entry-IsWellFormed

abbrev tags : Text
tags = codes "\"x\", *"

etag_matches_iff_example :
    (etag_matches tags (codes "t") ≡ true) ↔ HasMatch (codes "t") (split b',' tags)
etag_matches_iff_example = etag_matches_iff tags (codes "t")
