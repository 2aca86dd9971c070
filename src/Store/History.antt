-- ===== src/Store/History.antt =====
-- The ranges of a node's history and the queries behind them: internal/store/query.go.
pub mod Gpus
pub mod Grouped
use server_status.Base.{
  ℕ, ◌*◌, Bool, true, false, List, [], ◌∷◌, Option, none, some, ltb, ◌==◌, if◌then◌else◌, ◌≡◌, refl,
}
use server_status.Base.Dict.{get}
use server_status.Base.Text.{Text, codes, text_eq}
use server_status.Store.Table.{Time}
use server_status.Base.Int.{ℤ, pos, negsuc}

-- The nanoseconds of an hour.
abbrev hour : ℕ
hour = 3600000000000

unfoldable pub history_durations : List (Text × ℕ)
history_durations =
    (codes "1h", hour)
    ∷ (codes "6h", 6 * hour)
    ∷ (codes "24h", 24 * hour)
    ∷ (codes "7d", 7 * 24 * hour)
    ∷ (codes "30d", 30 * 24 * hour)
    ∷ (codes "90d", 90 * 24 * hour)
    ∷ []

unfoldable pub valid_history_range : Text → Bool
unfolding history_durations
valid_history_range value = elim (get value history_durations) [ none ↦ false | some d ↦ true ]

-- The two SQL texts for nodes and the two for GPUs.
pub data HistoryQuery : Type 0 where
  raw_history hourly_history : HistoryQuery

pub record HistoryQuerySpec : Type 0 where
  pub resolution : Text
  pub query : HistoryQuery
  pub bucket_minutes : ℕ

unfoldable pub history_queries : ℕ → HistoryQuerySpec
history_queries duration =
    if ltb (24 * hour) duration
    then record { resolution = codes "hour"; query = hourly_history; bucket_minutes = 0 }
    else if duration == 24 * hour
    then record { resolution = codes "5minute"; query = raw_history; bucket_minutes = 5 }
    else record { resolution = codes "minute"; query = raw_history; bucket_minutes = 1 }
