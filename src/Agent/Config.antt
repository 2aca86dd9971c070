-- ===== src/Agent/Config.antt =====
-- ConfigFromEnv of internal/agent/config.go.
use server_status.Base.{
  ℕ, ◌*◌, ◌||◌, List, [], ◌++◌, Option, none, some, ◌⊎◌, inl, inr, if◌then◌else◌, ◌≡◌, ◌≢◌, refl,
  arith,
}
use server_status.Base.Int.{ℤ, pos, ltb_ℤ, ◌≤ℤ◌}
use server_status.Base.Text.{Text, codes, is_empty, is_empty-false_iff, trim_space, trim_slashes}

pub record Config : Type 0 where
  pub server_url : Text
  pub token : Text
  pub agent_id : Text
  pub interval : ℤ
  pub labels : List (Text × Text)
  pub lock_file : Text

pub data ConfigError : Type 0 where
  invalid_duration invalid_labels missing_value invalid_interval : ConfigError

-- os.Getenv, time.ParseDuration in nanoseconds, json.Unmarshal into an empty map, and the text of
-- os.Getuid; `none` is an error.
pub record Environment : Type 0 where
  pub get_env : Text → Text
  pub parse_duration : Text → Option ℤ
  pub unmarshal : Text → Option (List (Text × Text))
  pub uid : Text

abbrev pub second : ℕ
second = 1_000_000_000

abbrev pub trimmed : Environment → Text → Text
trimmed env name = trim_space (env.get_env name)

abbrev or_error {ℓ} : {A : Type ℓ} → ConfigError → Option A → ConfigError ⊎ A
or_error e none = inl e
or_error e (some a) = inr a

-- A value that is set is parsed, and another has a default.
abbrev pub parsed_or {ℓ} :
    {A : Type ℓ} → ConfigError → (Text → Option A) → A → Text → ConfigError ⊎ A
parsed_or e parse default value = if is_empty value then inr default else or_error e (parse value)

infixl 5 ◌>>=◌
abbrev ◌>>=◌ : {A B : Type 0} → ConfigError ⊎ A → (A → ConfigError ⊎ B) → ConfigError ⊎ B
inl e >>= next = inl e
inr a >>= next = next a

-- The two tests at the end.
unfoldable pub check_config : Config → ConfigError ⊎ Config
check_config config =
    if is_empty config.server_url || is_empty config.token || is_empty config.agent_id
    then inl missing_value
    else if ltb_ℤ config.interval (pos (10 * second)) || ltb_ℤ (pos (3600 * second)) config.interval
    then inl invalid_interval
    else inr config

unfoldable pub config_from_env : Environment → ConfigError ⊎ Config
config_from_env env = do
  interval ←
      parsed_or invalid_duration env.parse_duration (pos (60 * second))
        (trimmed env (codes "SERVER_STATUS_INTERVAL"))
  labels ← parsed_or invalid_labels env.unmarshal [] (trimmed env (codes "SERVER_STATUS_LABELS"))
  let lock_file = trimmed env (codes "SERVER_STATUS_LOCK_FILE")
  check_config (record {
    server_url = trim_slashes (trimmed env (codes "SERVER_STATUS_URL"));
    token = trimmed env (codes "SERVER_STATUS_TOKEN");
    agent_id = trimmed env (codes "SERVER_STATUS_AGENT_ID");
    interval = interval;
    labels = labels;
    lock_file =
        if is_empty lock_file
        then codes "/tmp/server-status-agent-" ++ env.uid ++ codes ".lock"
        else lock_file;
  })

-- A configuration with which the agent can run.
pub record IsUsable (config : Config) : Type 0 where
  pub server_url : config.server_url ≢ []
  pub token : config.token ≢ []
  pub agent_id : config.agent_id ≢ []
  pub not_short : pos (10 * second) ≤ℤ config.interval
  pub not_long : config.interval ≤ℤ pos (3600 * second)

check_config-IsUsable :
    (config accepted : Config) → check_config config ≡ inr accepted → IsUsable accepted
unfolding check_config
check_config-IsUsable config accepted h = ground (
  arith,
  is_empty-false_iff config.server_url,
  is_empty-false_iff config.token,
  is_empty-false_iff config.agent_id,
)

>>=-inr :
    {A B : Type 0} (m : ConfigError ⊎ A) (next : A → ConfigError ⊎ B) (b : B)
    → (m >>= next) ≡ inr b
    → (a : A) × (m ≡ inr a) × (next a ≡ inr b)
>>=-inr (inl e) next b h = absurd (ground (arith, h))
>>=-inr (inr a) next b h = (a, refl, h)

-- The configuration of an agent that starts has an address, a token and an identifier, and an interval
-- from ten seconds to an hour.
pub config_from_env-IsUsable :
    (env : Environment) (config : Config) → config_from_env env ≡ inr config → IsUsable config
unfolding config_from_env
config_from_env-IsUsable env config h =
    let (interval, _, h1) =
      >>=-inr
        (parsed_or invalid_duration env.parse_duration (pos (60 * second))
          (trimmed env (codes "SERVER_STATUS_INTERVAL")))
        _ config h in
    let (labels, _, h2) =
      >>=-inr
        (parsed_or invalid_labels env.unmarshal [] (trimmed env (codes "SERVER_STATUS_LABELS"))) _
        config h1 in
    check_config-IsUsable _ config h2
