-- ===== src/Store/History/Grouped.antt =====
-- What the grouping of queryGPUHistory (internal/store/query.go) gives for each GPU.
use mathlib.Core.List.{Nodup, Nodup-nil}
use mathlib.Core.Option
use server_status.Base.{
  ℕ, zero, suc, List, [], ◌∷◌, ◌++◌, map, Option, none, some, false, ◌≡◌, ◌≢◌, refl, sym, ap, ◌∙◌,
  inl, inr, arith, Bool-cases, Option-cases, length, if◌then◌else◌,
}
use server_status.Base.Dict.{get, put, key_of, get-put, get-put_other, Nodup-put}
use server_status.Base.Text.{Text, text_eq, text_eq_iff, text_eq_refl}
use server_status.Store.History.Gpus.{
  GpuHistoryPoint, GpuHistorySeries, GpuHistoryRow, add_point, new_series, group_rows,
  query_gpu_history, points_at, index_of, points_of,
}

map-suc-some : (o : Option ℕ) (i : ℕ) → Option.map suc o ≡ some (suc i) → o ≡ some i
map-suc-some none i h = absurd (ground (arith, h))
map-suc-some (some j) i h = ground (arith, h)

map-suc-not-zero : (o : Option ℕ) → Option.map suc o ≡ some 0 → ⊥
map-suc-not-zero none h = ground (arith, h)
map-suc-not-zero (some j) h = ground (arith, h)

map-suc-none : (o : Option ℕ) → Option.map suc o ≡ none → o ≡ none
map-suc-none none h = refl
map-suc-none (some j) h = absurd (ground (arith, h))

index_of-add_point :
    (id : Text) (i : ℕ) (p : GpuHistoryPoint) (xs : List GpuHistorySeries)
    → index_of id (add_point i p xs) ≡ index_of id xs
unfolding index_of add_point
index_of-add_point id i p [] = refl
index_of-add_point id zero p (x ∷ xs) = refl
index_of-add_point id (suc i) p (x ∷ xs) = rw (index_of-add_point id i p xs) refl

points_at-add_point :
    (id : Text) (i : ℕ) (p : GpuHistoryPoint) (xs : List GpuHistorySeries)
    → index_of id xs ≡ some i
    → points_at id (add_point i p xs) ≡ points_at id xs ++ (p ∷ [])
unfolding index_of points_at add_point
points_at-add_point id i p [] h = absurd (ground (arith, h))
points_at-add_point id zero p (x ∷ xs) h = elim (Bool-cases (text_eq x.gpu_device_id id)) [
  | inl t ↦ rw t refl
  | inr t ↦ absurd (map-suc-not-zero (index_of id xs) (rw t at h))
]
points_at-add_point id (suc i) p (x ∷ xs) h = elim (Bool-cases (text_eq x.gpu_device_id id)) [
  | inl t ↦ absurd (ground (arith, rw t at h))
  | inr t ↦ rw t (points_at-add_point id i p xs (map-suc-some (index_of id xs) i (rw t at h)))
]

points_at-add_point_other :
    (id other : Text) (i : ℕ) (p : GpuHistoryPoint) (xs : List GpuHistorySeries)
    → other ≢ id
    → index_of id xs ≡ some i
    → points_at other (add_point i p xs) ≡ points_at other xs
unfolding index_of points_at add_point
points_at-add_point_other id other i p [] d h = refl
points_at-add_point_other id other zero p (x ∷ xs) d h =
    elim (Bool-cases (text_eq x.gpu_device_id id)) [
      | inl t ↦
          let apart : text_eq x.gpu_device_id other ≡ false =
            ground
              (arith, text_eq_iff x.gpu_device_id other, text_eq_iff x.gpu_device_id id, t, d) in
          rw apart refl
      | inr t ↦ absurd (map-suc-not-zero (index_of id xs) (rw t at h))
    ]
points_at-add_point_other id other (suc i) p (x ∷ xs) d h =
    elim (Bool-cases (text_eq x.gpu_device_id id)) [
      | inl t ↦ absurd (ground (arith, rw t at h))
      | inr t ↦
          rw
            (points_at-add_point_other id other i p xs d
              (map-suc-some (index_of id xs) i (rw t at h)))
            refl
    ]

index_of-append :
    (id : Text) (row : GpuHistoryRow) (xs : List GpuHistorySeries)
    → index_of row.device_id xs ≡ none
    → index_of id (xs ++ (new_series row ∷ []))
      ≡ (if text_eq row.device_id id then some (length xs) else index_of id xs)
unfolding index_of
index_of-append id row [] h = elim (Bool-cases (text_eq row.device_id id)) [
  | inl t ↦ rw t refl
  | inr t ↦ rw t refl
]
index_of-append id row (x ∷ xs) h = elim (Bool-cases (text_eq x.gpu_device_id row.device_id)) [
  | inl t ↦ absurd (ground (arith, rw t at h))
  | inr t ↦
      let ih = index_of-append id row xs (map-suc-none (index_of row.device_id xs) (rw t at h)) in
      elim (Bool-cases (text_eq x.gpu_device_id id)) [
        | inl u ↦
            let apart : text_eq row.device_id id ≡ false = ground (
              arith,
              text_eq_iff x.gpu_device_id id,
              text_eq_iff row.device_id id,
              text_eq_iff x.gpu_device_id row.device_id,
              t,
              u,
            ) in
            rw (u, apart) refl
        | inr u ↦ rw u (
            rw ih (elim (Bool-cases (text_eq row.device_id id)) [
              | inl v ↦ rw v refl
              | inr v ↦ rw v refl
            ]))
      ]
]

index_of-append_self :
    (row : GpuHistoryRow) (xs : List GpuHistorySeries)
    → index_of row.device_id xs ≡ none
    → index_of row.device_id (xs ++ (new_series row ∷ [])) ≡ some (length xs)
index_of-append_self row xs h =
    rw (index_of-append row.device_id row xs h) (rw (text_eq_refl row.device_id) refl)

points_at-append :
    (id : Text) (row : GpuHistoryRow) (xs : List GpuHistorySeries)
    → points_at id (xs ++ (new_series row ∷ [])) ≡ points_at id xs
unfolding points_at
points_at-append id row [] = elim (Bool-cases (text_eq row.device_id id)) [
  | inl t ↦ rw t refl
  | inr t ↦ rw t refl
]
points_at-append id row (x ∷ xs) = rw (points_at-append id row xs) refl

-- The positions are those of the series.
record ArePositions (result : List GpuHistorySeries) (positions : List (Text × ℕ)) : Type 0 where
  distinct : Nodup (map key_of positions)
  placed : (id : Text) → get id positions ≡ index_of id result

append-nil : {A : Type 0} (xs : List A) → xs ++ [] ≡ xs
append-nil [] = refl
append-nil (x ∷ xs) = ap (λ rest. x ∷ rest) (append-nil xs)

append-one :
    {A : Type 0} (xs : List A) (y : A) (ys : List A) → (xs ++ (y ∷ [])) ++ ys ≡ xs ++ (y ∷ ys)
append-one [] y ys = refl
append-one (x ∷ xs) y ys = ap (λ rest. x ∷ rest) (append-one xs y ys)

-- A point that joins its series joins the points of its GPU.
added :
    (id : Text) (row : GpuHistoryRow) (rows : List GpuHistoryRow) (i : ℕ)
    (xs : List GpuHistorySeries)
    → index_of row.device_id xs ≡ some i
    → points_at id (add_point i row.point xs) ++ points_of id rows
      ≡ points_at id xs ++ points_of id (row ∷ rows)
unfolding points_of
added id row rows i xs h = elim (Bool-cases (text_eq row.device_id id)) [
  | inl t ↦
      let here : index_of id xs ≡ some i = rw ((text_eq_iff row.device_id id).0 t) at h in
      rw (t, points_at-add_point id i row.point xs here)
        (append-one (points_at id xs) row.point (points_of id rows))
  | inr t ↦
      let apart : id ≢ row.device_id =
        λ q. ground (arith, text_eq_iff row.device_id id, t, sym q) in
      rw (t, points_at-add_point_other row.device_id id i row.point xs apart h) refl
]

ArePositions-new :
    (row : GpuHistoryRow) (result : List GpuHistorySeries) (positions : List (Text × ℕ))
    → ArePositions result positions
    → index_of row.device_id result ≡ none
    → ArePositions
        (add_point (length result) row.point (result ++ (new_series row ∷ [])))
        (put row.device_id (length result) positions)
ArePositions-new row result positions w h = record {
  distinct = Nodup-put row.device_id (length result) positions w.distinct;
  placed = λ id.
      let appended =
        index_of-add_point id (length result) row.point (result ++ (new_series row ∷ []))
        ∙ index_of-append id row result h in
      elim (Bool-cases (text_eq row.device_id id)) [
        | inl t ↦
            get-put_at ((text_eq_iff row.device_id id).0 t) (length result) positions
            ∙ sym (rw t at appended)
        | inr t ↦
            get-put_other id row.device_id (length result) positions w.distinct
              (λ q. ground (arith, text_eq_iff row.device_id id, t, sym q))
            ∙ w.placed id
            ∙ sym (rw t at appended)
      ];
}
  where
    get-put_at : {j k : Text} → j ≡ k → (n : ℕ) (es : List (Text × ℕ)) → get k (put j n es) ≡ some n
    get-put_at {j} e n es = rw (sym e) (get-put j n es)

append-points_of : (id : Text) (xs : List GpuHistoryPoint) → xs ++ points_of id [] ≡ xs
unfolding points_of
append-points_of id xs = append-nil xs

nothing_placed : (k : Text) → get k [] ≡ index_of k []
unfolding get index_of
nothing_placed k = refl

group_rows-points_at :
    (id : Text) (rows : List GpuHistoryRow) (result : List GpuHistorySeries)
    (positions : List (Text × ℕ))
    → ArePositions result positions
    → points_at id (group_rows rows result positions) ≡ points_at id result ++ points_of id rows
unfolding group_rows
group_rows-points_at id [] result positions w = sym (append-points_of id (points_at id result))
group_rows-points_at id (row ∷ rows) result positions w =
    elim (Option-cases (get row.device_id positions)) [
      | inr (i, e) ↦
          let known = sym (w.placed row.device_id) ∙ e in
          rw (e, group_rows)
            (group_rows-points_at id rows (add_point i row.point result) positions (record {
              distinct = w.distinct;
              placed = λ k. w.placed k ∙ sym (index_of-add_point k i row.point result);
            })
              ∙ added id row rows i result known)
      | inl e ↦
          let unknown = sym (w.placed row.device_id) ∙ e in
          let last = index_of-append_self row result unknown in
          rw (e, group_rows)
            (group_rows-points_at id rows _ _ (ArePositions-new row result positions w unknown)
              ∙ added id row rows (length result) (result ++ (new_series row ∷ [])) last
              ∙ ap (λ xs. xs ++ points_of id (row ∷ rows)) (points_at-append id row result))
    ]

-- The series of a GPU has the points of the GPU's rows, all of them and in their order.
pub query_gpu_history-points_at :
    (id : Text) (rows : List GpuHistoryRow)
    → points_at id (query_gpu_history rows) ≡ points_of id rows
unfolding query_gpu_history points_at
query_gpu_history-points_at id rows =
    group_rows-points_at id rows [] [] (record { distinct = Nodup-nil; placed = nothing_placed })
