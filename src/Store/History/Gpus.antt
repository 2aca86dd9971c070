-- ===== src/Store/History/Gpus.antt =====
-- queryGPUHistory of internal/store/query.go: the rows of a query grouped by GPU.
use mathlib.Core.Option
use server_status.Base.{
  ℕ, zero, suc, List, [], ◌∷◌, ◌++◌, Option, none, some, length, if◌then◌else◌,
}
use server_status.Base.Dict.{get, put}
use server_status.Base.Int.{ℤ}
use server_status.Base.Text.{Text, text_eq}
use server_status.Base.Float.{Float}
use server_status.Store.Table.{Time}

pub record GpuHistoryPoint : Type 0 where
  pub bucket_at : Time
  pub utilization_percent : Float
  pub memory_usage_percent : Float

pub record GpuHistorySeries : Type 0 where
  pub gpu_device_id : Text
  pub index : ℤ
  pub uuid : Text
  pub model_name : Text
  pub points : List GpuHistoryPoint

-- A row that the query gives.
pub record GpuHistoryRow : Type 0 where
  pub device_id : Text
  pub device_index : ℤ
  pub uuid : Text
  pub model_name : Text
  pub point : GpuHistoryPoint

-- `result[position].Points = append(result[position].Points, point)`
unfoldable pub add_point : ℕ → GpuHistoryPoint → List GpuHistorySeries → List GpuHistorySeries
add_point position point [] = []
add_point zero point (series ∷ result) =
    (record series { points = series.points ++ (point ∷ []) }) ∷ result
add_point (suc position) point (series ∷ result) = series ∷ add_point position point result

abbrev pub new_series : GpuHistoryRow → GpuHistorySeries
new_series row = record {
  gpu_device_id = row.device_id;
  index = row.device_index;
  uuid = row.uuid;
  model_name = row.model_name;
  points = [];
}

-- The loop: the series so far, and the position of each GPU among them.
unfoldable pub group_rows :
    List GpuHistoryRow → List GpuHistorySeries → List (Text × ℕ) → List GpuHistorySeries
unfolding add_point
group_rows [] result positions = result
group_rows (row ∷ rows) result positions = elim (get row.device_id positions) [
  | some position ↦ group_rows rows (add_point position row.point result) positions
  | none ↦
      group_rows rows (add_point (length result) row.point (result ++ (new_series row ∷ [])))
        (put row.device_id (length result) positions)
]

unfoldable pub query_gpu_history : List GpuHistoryRow → List GpuHistorySeries
unfolding group_rows
query_gpu_history rows = group_rows rows [] []

-- The points of the first series of a GPU, and where it stands.
unfoldable pub points_at : Text → List GpuHistorySeries → List GpuHistoryPoint
points_at id [] = []
points_at id (x ∷ xs) = if text_eq x.gpu_device_id id then x.points else points_at id xs

unfoldable pub index_of : Text → List GpuHistorySeries → Option ℕ
index_of id [] = none
index_of id (x ∷ xs) =
    if text_eq x.gpu_device_id id then some 0 else Option.map suc (index_of id xs)

-- The points of the rows of a GPU, in order.
unfoldable pub points_of : Text → List GpuHistoryRow → List GpuHistoryPoint
points_of id [] = []
points_of id (row ∷ rows) =
    let rest = points_of id rows in if text_eq row.device_id id then row.point ∷ rest else rest
