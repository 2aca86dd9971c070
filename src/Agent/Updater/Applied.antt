-- ===== src/Agent/Updater/Applied.antt =====
-- What Apply of internal/agent/updater.go guarantees, with the server that asks for the update.
use mathlib.Core.Option
use server_status.Base.{
  ℕ, ◌≤◌, Bool, true, false, List, [], Option, none, some, ◌⊎◌, inl, inr, ◌≡◌, ◌≢◌, refl, sym, ap,
  ◌∙◌, arith, Bool-cases, Option-cases, length, ltb,
}
use server_status.Base.Text.{Text, codes, text_eq, text_eq_iff, trim_space, trim_left, trim_right}
use server_status.Report.Types.{AgentUpdate}
use server_status.Version.Normal.{normalize, normalize_lem}
use server_status.Version.Parse.{parse, parse_numbers, match_number, drop_v, take_digits}
use server_status.Base.Decimal.{parse_uint}
use server_status.Version.Order.{less, equal, greater, compare}
use server_status.Version.Laws.{compare_flips, flip}
use server_status.Server.Api.{agent_update, new_api}
use server_status.Agent.Updater.{
  UpdateError, World, Updater, update_asset_name, update_checksum_for_asset, download_bytes,
  max_update_binary_bytes, max_update_checksums_bytes, no_executable, no_temporary_file,
  not_written, not_executable, not_replaced, checksum_mismatch, verify_update_version, ◌then_do◌,
  require, or_success, check_target, fetch_update, installed, apply,
}

-- A chain that succeeds has steps that succeed.
then_do-inr :
    {A B : Type 0} (m : UpdateError ⊎ A) (next : A → UpdateError ⊎ B) (b : B)
    → (m then_do next) ≡ inr b
    → (a : A) × (m ≡ inr a) × (next a ≡ inr b)
then_do-inr (inl e) next b h = absurd (ground (arith, h))
then_do-inr (inr a) next b h = (a, refl, h)

require-inr : (c : Bool) (e : UpdateError) (u : Unit {0}) → require c e ≡ inr u → c ≡ true
require-inr true e u h = refl
require-inr false e u h = absurd (ground (arith, h))

or_success-inr : (o : Option UpdateError) (u : Unit {0}) → or_success o ≡ inr u → o ≡ none
or_success-inr none u h = refl
or_success-inr (some e) u h = absurd (ground (arith, h))

-- The binary is the one that the checksums of the target list, of a size within the limit, and says
-- that it is the target.
pub record IsVerified (w : World) (updater : Updater) (target : Text) (binary : List ℕ)
    : Type 0 where
  pub asset : Text
  pub checksums : List ℕ
  pub output : Text
  pub asset_name : update_asset_name updater.operating_system updater.architecture ≡ inr asset
  pub lists : w.download target (codes "checksums.txt") ≡ some checksums
  pub listed : update_checksum_for_asset (w.text_of checksums) asset ≡ inr (w.sha256_hex binary)
  pub served : w.download target asset ≡ some binary
  pub small : length binary ≤ max_update_binary_bytes
  pub prints : w.version_of binary ≡ some output
  pub version : normalize (trim_space output) ≡ some target

download_bytes-inr :
    (w : World) (target asset : Text) (limit : ℕ) (body : List ℕ)
    → download_bytes w target asset limit ≡ inr body
    → (w.download target asset ≡ some body) × (length body ≤ limit)
unfolding download_bytes
download_bytes-inr w target asset limit body h = elim (Option-cases (w.download target asset)) [
  | inl e ↦ absurd (ground (arith, rw (e, download_bytes) at h))
  | inr (b, e) ↦ elim (Bool-cases (ltb limit (length b))) [
    | inl l ↦ absurd (ground (arith, rw (e, download_bytes, l) at h))
    | inr l ↦
        let same : b ≡ body = ground (arith, rw (e, download_bytes, l) at h) in
        let small : length b ≤ limit = ground (arith, l) in (e ∙ ap some same, rw same at small)
  ]
]

verify_update_version-none :
    (w : World) (binary : List ℕ) (target : Text)
    → verify_update_version w binary target ≡ none
    → (output : Text) × (w.version_of binary ≡ some output)
      × (normalize (trim_space output) ≡ some target)
unfolding verify_update_version
verify_update_version-none w binary target h = elim (Option-cases (w.version_of binary)) [
  | inl e ↦ absurd (ground (arith, rw (e, verify_update_version) at h))
  | inr (output, e) ↦ elim (Option-cases (normalize (trim_space output))) [
    | inl n ↦ absurd (ground (arith, rw (e, verify_update_version, n) at h))
    | inr (actual, n) ↦ elim (Bool-cases (text_eq actual target)) [
      | inl t ↦ (output, e, n ∙ ap some ((text_eq_iff actual target).0 t))
      | inr t ↦ absurd (ground (arith, rw (e, verify_update_version, n, t) at h))
    ]
  ]
]

fetch_update-IsVerified :
    (w : World) (updater : Updater) (target : Text) (binary : List ℕ)
    → fetch_update w updater target ≡ inr binary
    → IsVerified w updater target binary
unfolding fetch_update
fetch_update-IsVerified w updater target binary h =
    let (asset, named, h1) = then_do-inr _ _ binary h in
    let (checksums, got, h2) = then_do-inr _ _ binary h1 in
    let (expected, listed, h3) = then_do-inr _ _ binary h2 in
    let (_, _, h4) = then_do-inr (require w.finds_executable no_executable) _ binary h3 in
    let (_, _, h5) = then_do-inr (require w.creates_temporary no_temporary_file) _ binary h4 in
    let (found, got_binary, h6) = then_do-inr _ _ binary h5 in
    let (_, _, h7) = then_do-inr (require w.writes not_written) _ binary h6 in
    let (_, digest, h8) = then_do-inr _ _ binary h7 in
    let (_, _, h9) = then_do-inr (require w.changes_mode not_executable) _ binary h8 in
    let (_, checked, h10) = then_do-inr _ _ binary h9 in
    let (_, _, h11) = then_do-inr (require w.renames not_replaced) _ binary h10 in
    let same : found ≡ binary = ground (arith, h11) in
    let equal_digest = (text_eq_iff _ _).0 (require-inr _ checksum_mismatch tt digest) in
    let (output, prints, version) =
      verify_update_version-none w found target (or_success-inr _ _ checked) in
    let (served, small) =
      download_bytes-inr w target asset max_update_binary_bytes found got_binary in
    let verified : IsVerified w updater target found = record {
      asset = asset;
      checksums = checksums;
      output = output;
      asset_name = named;
      lists =
          (download_bytes-inr w target (codes "checksums.txt") max_update_checksums_bytes checksums
            got).0;
      listed = listed ∙ ap inr (sym equal_digest);
      served = served;
      small = small;
      prints = prints;
      version = version;
    } in
    rw same at verified

check_target-inr :
    (current raw target : Text)
    → check_target current raw ≡ inr target
    → (normalize raw ≡ some target) × (compare current target ≡ some less)
unfolding check_target
check_target-inr current raw target h = elim (Option-cases (normalize raw)) [
  | inl e ↦ absurd (ground (arith, rw (e, check_target) at h))
  | inr (found, e) ↦ elim (Option-cases (compare current found)) [
    | inl c ↦ absurd (ground (arith, rw (e, check_target, c) at h))
    | inr (less, c) ↦
        let same : found ≡ target = ground (arith, rw (e, check_target, c) at h) in
        (e ∙ ap some same, rw same at c)
    | inr (equal, c) ↦ absurd (ground (arith, rw (e, check_target, c) at h))
    | inr (greater, c) ↦ absurd (ground (arith, rw (e, check_target, c) at h))
  ]
]

-- Apply either fails and leaves the executable as it was, or installs a binary that is verified for a
-- target newer than the current version.
pub apply-safe :
    (w : World) (updater : Updater) (raw : Text) (executable : List ℕ)
    → (((apply w updater raw executable).0 ≢ none)
        × ((apply w updater raw executable).1 ≡ executable))
      ⊎ (((apply w updater raw executable).0 ≡ none)
          × ((target : Text) × (normalize raw ≡ some target)
              × (compare updater.current_version target ≡ some less)
              × IsVerified w updater target (apply w updater raw executable).1))
unfolding apply
apply-safe w updater raw executable =
    go (check_target updater.current_version raw then_do λ target. fetch_update w updater target)
      refl
  where
    go :
        (o : UpdateError ⊎ List ℕ)
        → (check_target updater.current_version raw then_do λ target. fetch_update w updater target)
          ≡ o
        → (((installed executable o).0 ≢ none) × ((installed executable o).1 ≡ executable))
          ⊎ (((installed executable o).0 ≡ none)
              × ((target : Text) × (normalize raw ≡ some target)
                  × (compare updater.current_version target ≡ some less)
                  × IsVerified w updater target (installed executable o).1))
    go (inl e) h = inl (λ q. ground (arith, q), refl)
    go (inr binary) h =
        let (target, checked, fetched) = then_do-inr _ _ binary h in
        let (normal, newer) = check_target-inr updater.current_version raw target checked in
        inr (refl, (target, normal, newer, fetch_update-IsVerified w updater target binary fetched))

agent_update-some :
    (current latest : Text) (u : AgentUpdate)
    → agent_update current latest ≡ some u
    → (compare current latest ≡ some less) × (u.version ≡ latest)
unfolding agent_update
agent_update-some current latest u h = elim (Option-cases (compare current latest)) [
  | inl c ↦ absurd (ground (arith, rw (c, agent_update) at h))
  | inr (less, c) ↦ (c, ground (arith, rw (c, agent_update) at h))
  | inr (equal, c) ↦ absurd (ground (arith, rw (c, agent_update) at h))
  | inr (greater, c) ↦ absurd (ground (arith, rw (c, agent_update) at h))
]

compare-nil : (current : Text) → compare current [] ≡ none
unfolding compare parse trim_space trim_left trim_right drop_v parse_numbers match_number parse_uint
    take_digits
compare-nil current = elim (Option-cases (parse (trim_space current))) [
  | inl h ↦ rw h refl
  | inr (p, h) ↦ rw h refl
]

-- Of two normal forms of one version neither is asked to update to the other.
agent_update-same :
    (updated latest : Text) → normalize updated ≡ some latest → agent_update updated latest ≡ none
unfolding agent_update
agent_update-same updated latest n =
    let same : compare updated latest ≡ some equal =
      compare_flips latest updated ∙ ap (Option.map flip) (normalize_lem updated latest n).1 in
    rw (same, agent_update) refl

check_target-newer :
    (current target : Text)
    → normalize target ≡ some target
    → compare current target ≡ some less
    → check_target current target ≡ inr target
unfolding check_target
check_target-newer current target n c = rw (n, check_target) (rw (c, check_target) refl)

-- An update that the server asks for passes the agent's checks of its version, and an agent whose
-- version then normalises to the one asked for is not asked again.
pub agent_update-checked :
    (sha256 : Text → Text) (version admin_token current updated : Text) (u : AgentUpdate)
    → agent_update current (new_api sha256 version admin_token).latest_agent_version ≡ some u
    → normalize updated ≡ some u.version
    → (check_target current u.version ≡ inr u.version)
      × (agent_update updated (new_api sha256 version admin_token).latest_agent_version ≡ none)
unfolding new_api
agent_update-checked sha256 version admin_token current updated u h n =
    elim (Option-cases (normalize version)) [
      | inl v ↦
          let (c, _) = agent_update-some current [] u (rw v at h) in
          absurd (ground (arith, compare-nil current, c))
      | inr (latest, v) ↦
          let (c, same) = agent_update-some current latest u (rw v at h) in
          let target = check_target-newer current latest (normalize_lem version latest v).0 c in
          rw (v, same) (target, agent_update-same updated latest (n ∙ ap some same))
    ]
