-- ===== src/Agent/Run.antt =====
-- Run of internal/agent/run.go: the loop that collects, reports and updates. The events are what its
-- select receives, one after another: a timer that fires, with what its round meets, or the end of the
-- context.
use mathlib.Core.List.{Mem, mem-cons_self, mem-cons_of_mem}
use server_status.Base.{
  ℕ, ◌-◌, Bool, true, false, List, [], ◌∷◌, Option, none, some, ◌⊎◌, inl, inr, ◌≡◌, ◌≢◌, refl, ◌∙◌,
  arith, if◌then◌else◌, Option-cases,
}
use server_status.Base.Text.{Text}
use server_status.Report.Types.{ReportReceipt, AgentUpdate}
use server_status.Version.Normal.{normalize}
use server_status.Version.Order.{compare, less}
use server_status.Agent.Client.{
  SendResult, received, given_up, exhausted, context_done, Attempts, send,
}
use server_status.Agent.Updater.{World, Updater, UpdateError, apply}
use server_status.Agent.Updater.Applied.{IsVerified, apply-safe}

pub data Outcome : Type 0 where
  -- Still waiting for an event.
  waiting : Outcome
  -- `return nil` and `return ErrUpdateApplied`
  stopped update_applied : Outcome

-- The outcome, the content of the executable, and the delays to which the timer was set.
pub record Ended : Type 0 where
  pub outcome : Outcome
  pub executable : List ℕ
  pub delays : List ℕ

abbrev is_success : Option UpdateError → Bool
is_success none = true
is_success (some e) = false

-- The updater has the version of the program, and times are in nanoseconds.
module _ (decode : List ℕ → Option ReportReceipt) (updater : Updater) (interval : ℕ) where
  -- What a round meets: whether Collect succeeds, the attempts to send its report, what an update
  -- meets, and how long the round takes.
  pub record Round : Type 0 where
    pub collects : Bool
    pub attempts : Attempts decode
    pub world : World
    pub elapsed : ℕ

  pub data Event : Type 0 where
    done : Event
    fires : Round → Event

  -- Whether an update was installed, and the executable afterwards.
  unfoldable pub on_update : Round → List ℕ → Option AgentUpdate → Bool × List ℕ
  on_update round executable none = (false, executable)
  on_update round executable (some update) =
      let (e, after) = apply round.world updater update.version executable in (is_success e, after)

  unfoldable pub on_sent : Round → List ℕ → SendResult decode → Bool × List ℕ
  unfolding on_update
  on_sent round executable (received receipt) = on_update round executable receipt.agent_update
  on_sent round executable (given_up e) = (false, executable)
  on_sent round executable (exhausted e) = (false, executable)
  on_sent round executable context_done = (false, executable)

  unfoldable pub run_round : Round → List ℕ → Bool × List ℕ
  run_round round executable =
      if round.collects
      then on_sent round executable (send decode round.attempts)
      else (false, executable)

  -- A delay below zero becomes zero.
  abbrev pub next_delay : ℕ → ℕ
  next_delay elapsed = interval - elapsed

  abbrev pub and_delay : ℕ → Ended → Ended
  and_delay delay ended = record ended { delays = delay ∷ ended.delays }

  unfoldable pub run : List Event → List ℕ → Ended
  run [] executable = record { outcome = waiting; executable = executable; delays = [] }
  run (done ∷ events) executable = record {
    outcome = stopped;
    executable = executable;
    delays = [];
  }
  run (fires round ∷ events) executable =
      let (applied, after) = run_round round executable in
      let rest = run events after in
      if applied
      then record { outcome = update_applied; executable = after; delays = [] }
      else and_delay (next_delay round.elapsed) rest

  -- A round installed the executable: it sent a report, the receipt asked for an update to a newer
  -- version, and the executable is verified for it.
  pub record IsInstalled (round : Round) (executable : List ℕ) : Type 0 where
    pub receipt : ReportReceipt
    pub update : AgentUpdate
    pub target : Text
    pub collected : round.collects ≡ true
    pub sent : send decode round.attempts ≡ received receipt
    pub asked : receipt.agent_update ≡ some update
    pub version : normalize update.version ≡ some target
    pub newer : compare updater.current_version target ≡ some less
    pub verified : IsVerified round.world updater target executable

  abbrev Kept : Round → List ℕ → Bool × List ℕ → Type 0
  Kept round executable (applied, after) =
      ((applied ≡ true) × IsInstalled round after) ⊎ ((applied ≡ false) × (after ≡ executable))

  -- What the updater does in a round whose receipt asks for an update.
  apply-Kept :
      (round : Round) (executable : List ℕ) (receipt : ReportReceipt) (update : AgentUpdate)
      → round.collects ≡ true
      → send decode round.attempts ≡ received receipt
      → receipt.agent_update ≡ some update
      → Kept round executable (
        is_success (apply round.world updater update.version executable).0,
        (apply round.world updater update.version executable).1,
      )
  apply-Kept round executable receipt update c s a =
      elim (apply-safe round.world updater update.version executable) [
        | inl (failed, same) ↦ inr (
          (elim (Option-cases (apply round.world updater update.version executable).0) [
            | inl e ↦ absurd (failed e)
            | inr (error, e) ↦ rw e refl
          ]),
          same,
        )
        | inr (worked, (target, version, newer, verified)) ↦ inl (
          rw worked refl,
          record {
            receipt = receipt;
            update = update;
            target = target;
            collected = c;
            sent = s;
            asked = a;
            version = version;
            newer = newer;
            verified = verified;
          },
        )
      ]

  on_update-Kept :
      (round : Round) (executable : List ℕ) (receipt : ReportReceipt)
      → round.collects ≡ true
      → send decode round.attempts ≡ received receipt
      → Kept round executable (on_update round executable receipt.agent_update)
  unfolding on_update
  on_update-Kept round executable receipt c s = go receipt.agent_update refl
    where
      go :
          (o : Option AgentUpdate)
          → receipt.agent_update ≡ o
          → Kept round executable (on_update round executable o)
      go none a = inr (refl, refl)
      go (some update) a = apply-Kept round executable receipt update c s a

  run_round-Kept :
      (round : Round) (executable : List ℕ) → Kept round executable (run_round round executable)
  unfolding run_round on_sent on_update
  run_round-Kept round executable = choose round.collects refl
    where
      go :
          round.collects ≡ true
          → (r : SendResult decode) → send decode round.attempts ≡ r
          → Kept round executable (on_sent round executable r)
      go c (received receipt) s = on_update-Kept round executable receipt c s
      go c (given_up e) s = inr (refl, refl)
      go c (exhausted e) s = inr (refl, refl)
      go c context_done s = inr (refl, refl)

      choose :
          (b : Bool)
          → round.collects ≡ b
          → Kept round executable (
              if b
              then on_sent round executable (send decode round.attempts)
              else (false, executable))
      choose true c = go c (send decode round.attempts) refl
      choose false c = inr (refl, refl)

  -- How a run that starts with an executable may end.
  abbrev pub EndsSafely : List Event → List ℕ → Ended → Type 0
  EndsSafely events executable ended =
      ((ended.outcome ≡ update_applied)
        × ((round : Round) × Mem (fires round) events × IsInstalled round ended.executable))
      ⊎ ((ended.outcome ≢ update_applied) × (ended.executable ≡ executable))

  after_round :
      (round : Round) (events : List Event) (executable : List ℕ)
      → ((after : List ℕ) → EndsSafely events after (run events after))
      → (x : Bool × List ℕ) → Kept round executable x
      → EndsSafely (fires round ∷ events) executable (
          if x.0
          then record { outcome = update_applied; executable = x.1; delays = [] }
          else and_delay (next_delay round.elapsed) (run events x.1))
  after_round round events executable rest (true, after) (inl (t, i)) =
      inl (refl, (round, mem-cons_self, i))
  after_round round events executable rest (true, after) (inr (f, same)) =
      absurd (ground (arith, f))
  after_round round events executable rest (false, after) (inl (t, i)) = absurd (ground (arith, t))
  after_round round events executable rest (false, after) (inr (f, same)) = elim (rest after) [
    | inl (o, (r, m, i)) ↦ inl (o, (r, mem-cons_of_mem (fires round) m, i))
    | inr (o, s) ↦ inr (o, s ∙ same)
  ]

  -- Either Run ends for an update, and one of its rounds, which sent its report and whose receipt asked
  -- for a newer version, installed the executable that Run leaves, verified for that version; or Run
  -- does not end for an update, and leaves the executable as it was.
  pub run-IsInstalled :
      (events : List Event) (executable : List ℕ)
      → (((run events executable).outcome ≡ update_applied)
          × ((round : Round) × Mem (fires round) events
              × IsInstalled round (run events executable).executable))
        ⊎ (((run events executable).outcome ≢ update_applied)
            × ((run events executable).executable ≡ executable))
  unfolding run
  run-IsInstalled [] executable = inr (λ q. cc, refl)
  run-IsInstalled (done ∷ events) executable = inr (λ q. cc, refl)
  run-IsInstalled (fires round ∷ events) executable =
      after_round round events executable (run-IsInstalled events) (run_round round executable)
        (run_round-Kept round executable)
