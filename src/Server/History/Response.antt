-- ===== src/Server/History/Response.antt =====
-- writeHistoryResponse of history_cache.go: the answer made of a cached response.
use mathlib.Core.List.{Mem, not-mem-nil, mem-cons_self, mem-cons_of_mem, eq-or-mem_of_mem-cons}
use mathlib.Core.Logic.Or
use server_status.Base.{
  ℕ, List, [], ◌∷◌, ◌++◌, Option, none, some, Bool, true, false, not, ◌||◌, if◌then◌else◌, ◌≡◌, ◌↔◌,
  ◌⊎◌, inl, inr, refl, sym, arith, Bool-cases,
}
use server_status.Base.Decimal.{split}
use server_status.Base.Float.{Float, ◌≤F◌, of_nat}
use server_status.Base.Int.{ℤ}
use server_status.Base.Text.{Text, codes, text_eq, text_eq_iff, trim_space, equal_fold, cut}
use server_status.Server.History.Cache.{CachedHistoryResponse}

-- strconv.ParseFloat (`none` is its error), and the text of the Server-Timing header for a query and
-- an encoding of so many nanoseconds.
pub record Formats : Type 0 where
  pub parse_float : Text → Option Float
  pub timing : ℤ → ℤ → Text

-- The parameters of one coding: false where a quality is zero or less.
unfoldable pub allows : Formats → List Text → Bool
allows f [] = true
allows f (parameter ∷ parameters) =
    let rest = allows f parameters in
    elim (cut b'=' (trim_space parameter)) [
      | none ↦ rest
      | some (name, value) ↦
          if not (equal_fold (trim_space name) (codes "q"))
          then rest
          else elim (f.parse_float (trim_space value)) [
            | none ↦ rest
            | some quality ↦ if quality ≤F of_nat 0 then false else rest
          ]
    ]

-- The loop over the codings of the Accept-Encoding header: the first gzip decides.
unfoldable pub accepts_items : Formats → List Text → Bool
accepts_items f [] = false
accepts_items f (item ∷ items) =
    let rest = accepts_items f items in
    elim (split b';' (trim_space item)) [
      | [] ↦ rest
      | name ∷ parameters ↦
          if equal_fold (trim_space name) (codes "gzip") then allows f parameters else rest
    ]

unfoldable pub accepts_gzip : Formats → Text → Bool
accepts_gzip f header = accepts_items f (split b',' header)

-- The loop over the tags of the If-None-Match header.
unfoldable pub any_matches : Text → List Text → Bool
any_matches etag [] = false
any_matches etag (candidate ∷ candidates) =
    (text_eq (trim_space candidate) (codes "*") || text_eq (trim_space candidate) etag)
    || any_matches etag candidates

unfoldable pub etag_matches : Text → Text → Bool
etag_matches header etag = any_matches etag (split b',' header)

pub record Reply : Type 0 where
  pub status : ℕ
  pub headers : List (Text × Text)
  pub body : List ℕ

abbrev common_headers : CachedHistoryResponse → List (Text × Text)
common_headers cached =
    (codes "Content-Type", codes "application/json")
    ∷ (codes "Cache-Control", codes "public, max-age=30, stale-while-revalidate=30")
    ∷ (codes "ETag", cached.etag)
    ∷ (codes "Vary", codes "Accept-Encoding")
    ∷ []

abbrev cache_headers : Formats → CachedHistoryResponse → Bool → List (Text × Text)
cache_headers f cached true =
    (codes "X-Server-Status-Cache", codes "HIT")
    ∷ (codes "Server-Timing", codes "history-cache;desc=\"hit\"")
    ∷ []
cache_headers f cached false =
    (codes "X-Server-Status-Cache", codes "MISS")
    ∷ (codes "Server-Timing", f.timing cached.query_duration cached.encode_duration)
    ∷ []

-- `if_none_match` and `accept_encoding` are the request's headers, empty where it has none.
unfoldable pub write_history_response : Formats → Text → Text → CachedHistoryResponse → Bool → Reply
write_history_response f if_none_match accept_encoding cached cache_hit =
    let headers = common_headers cached ++ cache_headers f cached cache_hit in
    if etag_matches if_none_match cached.etag
    then record { status = 304; headers = headers; body = [] }
    else if accepts_gzip f accept_encoding
    then record {
      status = 200;
      headers = headers ++ ((codes "Content-Encoding", codes "gzip") ∷ []);
      body = cached.gzip_body;
    }
    else record { status = 200; headers = headers; body = cached.body }

-- `*` or the tag itself.
abbrev pub IsTagFor : Text → Text → Type 0
IsTagFor etag candidate = (trim_space candidate ≡ codes "*") ⊎ (trim_space candidate ≡ etag)

-- A tag of the header that matches.
pub record HasMatch (etag : Text) (candidates : List Text) : Type 0 where
  pub candidate : Text
  pub listed : Mem candidate candidates
  pub matches : IsTagFor etag candidate

or_true : (a : Bool) → (a || true) ≡ true
or_true true = refl
or_true false = refl

Bool-set : IsSet Bool
Bool-set = hlevel

matches_iff :
    (etag c : Text)
    → ((text_eq (trim_space c) (codes "*") || text_eq (trim_space c) etag) ≡ true) ↔ IsTagFor etag c
matches_iff etag c =
    ground (arith, text_eq_iff (trim_space c) (codes "*"), text_eq_iff (trim_space c) etag)

any_matches-HasMatch :
    (etag : Text) (cs : List Text) → any_matches etag cs ≡ true → HasMatch etag cs
unfolding any_matches
any_matches-HasMatch etag [] h = absurd (ground arith)
any_matches-HasMatch etag (c ∷ cs) h =
    elim (Bool-cases (text_eq (trim_space c) (codes "*") || text_eq (trim_space c) etag)) [
      | inl b ↦ record { candidate = c; listed = mem-cons_self; matches = (matches_iff etag c).0 b }
      | inr b ↦
          let m = any_matches-HasMatch etag cs (rw b at h) in
          record {
            candidate = m.candidate;
            listed = mem-cons_of_mem c m.listed;
            matches = m.matches;
          }
    ]

any_matches_of_Mem :
    (etag c : Text) (cs : List Text) → Mem c cs → IsTagFor etag c → any_matches etag cs ≡ true
unfolding any_matches
any_matches_of_Mem etag c [] m h = absurd (not-mem-nil m)
any_matches_of_Mem etag c (d ∷ cs) m h =
    Or.elim (Bool-set _ _) (eq-or-mem_of_mem-cons m)
      (λ q. rw (sym q, (matches_iff etag c).1 h) refl)
      (λ i.
        rw (any_matches_of_Mem etag c cs i h)
          (or_true (text_eq (trim_space d) (codes "*") || text_eq (trim_space d) etag)))

-- The tag of a response matches the header exactly when the header lists it, or `*`.
pub etag_matches_iff :
    (header etag : Text) → (etag_matches header etag ≡ true) ↔ HasMatch etag (split b',' header)
unfolding etag_matches
etag_matches_iff header etag = (
  any_matches-HasMatch etag (split b',' header),
  λ m. any_matches_of_Mem etag m.candidate (split b',' header) m.listed m.matches,
)
