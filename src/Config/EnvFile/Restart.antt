-- ===== src/Config/EnvFile/Restart.antt =====
-- What a later start reads from the .env file that the first one wrote.
use xray_vless_ws_go.Base.{
  ◌≡◌, refl, true, List, Option, none, some, Bytes, codes, bytes_eq, Result, ok, err,
}
use xray_vless_ws_go.Text.Search.{has_prefix}
use xray_vless_ws_go.Text.Split.{cut}
use xray_vless_ws_go.Config.{Config}
use xray_vless_ws_go.Config.Random.{new_uuid_v4, new_secret_token}
use xray_vless_ws_go.Config.Env.{
  Environ, Draws, default_port, default_fake_sni, base_config, from_env,
}
use xray_vless_ws_go.Config.EnvFile.{
  World, LoadError, Reader, env_file_lines, default_env_file, write_if_missing, load,
}
use xray_vless_ws_go.Config.Random.Laws.{Sixteen}
use xray_vless_ws_go.Config.Random.Digits.{
  TwentyFour, new_uuid_v4-IsToken, new_secret_token-IsToken, new_uuid_v4_ne, new_secret_token_ne,
}
use xray_vless_ws_go.Config.EnvFile.Plain.{
  is_value, are_plain, merged, ReadsPlain, no_env, value_one_line, IsToken-is_value,
}
use xray_vless_ws_go.Config.EnvFile.Defaults.{
  getenv_or_generate-some, with_defaults, from_env-with_defaults, load-ok,
}

module _ (uuid log_password worker_password : Bytes) where
  lines : List Bytes
  lines = env_file_lines uuid log_password worker_password

  lines-are_plain :
      is_value uuid ≡ true
      → is_value log_password ≡ true
      → is_value worker_password ≡ true
      → are_plain lines ≡ true
  unfolding lines env_file_lines has_prefix cut bytes_eq
  lines-are_plain u l w =
      rw
        (
          u,
          l,
          w,
          value_one_line uuid u,
          value_one_line log_password l,
          value_one_line worker_password w,
        )
        refl

  read_port : merged lines no_env (codes "PORT") ≡ some default_port
  unfolding lines env_file_lines has_prefix cut bytes_eq
  read_port = refl

  read_sni : merged lines no_env (codes "FAKE_SNI") ≡ some default_fake_sni
  unfolding lines env_file_lines has_prefix cut bytes_eq
  read_sni = refl

  read_uuid : merged lines no_env (codes "XRAY_UUID") ≡ some uuid
  unfolding lines env_file_lines has_prefix cut bytes_eq
  read_uuid = refl

  read_log : merged lines no_env (codes "LOG_PASSWORD") ≡ some log_password
  unfolding lines env_file_lines has_prefix cut bytes_eq
  read_log = refl

  read_worker : merged lines no_env (codes "WORKER_PASSWORD") ≡ some worker_password
  unfolding lines env_file_lines has_prefix cut bytes_eq
  read_worker = refl

-- A start that returns a configuration with the secrets of these draws.
abbrev pub Keeps : Draws → Result LoadError Config → Type 0
Keeps first (err e) = ⊥
Keeps first (ok cfg) =
    (cfg.xray_uuid ≡ new_uuid_v4 first.uuid)
    × (cfg.log_password ≡ new_secret_token first.log_secret)
    × (cfg.worker_password ≡ new_secret_token first.worker_secret)

module _ (reader : Reader) (reads : ReadsPlain reader) (first : Draws) (u : Sixteen first.uuid)
    (l : TwentyFour first.log_secret) (w : TwentyFour first.worker_secret) where
  abbrev content : List Bytes
  content =
      lines (new_uuid_v4 first.uuid) (new_secret_token first.log_secret)
        (new_secret_token first.worker_secret)

  abbrev env : Environ
  env = merged content no_env

  file_read : reader (some (default_env_file first)) no_env ≡ ok env
  unfolding default_env_file lines
  file_read = reads content no_env (
      lines-are_plain (new_uuid_v4 first.uuid) (new_secret_token first.log_secret)
        (new_secret_token first.worker_secret)
        (IsToken-is_value _ (new_uuid_v4-IsToken first.uuid u))
        (IsToken-is_value _ (new_secret_token-IsToken first.log_secret l))
        (IsToken-is_value _ (new_secret_token-IsToken first.worker_secret w)))

  env_read :
      (draws : Draws) → from_env env draws ≡ some (ok (with_defaults (base_config env draws)))
  env_read draws = from_env-with_defaults env draws (read_port _ _ _) (read_sni _ _ _)

  loaded-Keeps : (draws : Draws) → Keeps first (ok (with_defaults (base_config env draws)))
  unfolding base_config
  loaded-Keeps draws = (
    getenv_or_generate-some env (codes "XRAY_UUID") _ _ (read_uuid _ _ _)
        (new_uuid_v4_ne first.uuid),
    getenv_or_generate-some env (codes "LOG_PASSWORD") _ _ (read_log _ _ _)
        (new_secret_token_ne first.log_secret l),
    getenv_or_generate-some env (codes "WORKER_PASSWORD") _ _ (read_worker _ _ _)
        (new_secret_token_ne first.worker_secret w),
  )

  abbrev behind : World
  behind = record { file = some (default_env_file first); env = env }

  first_load :
      (draws : Draws)
      → load reader none first draws (record { file = none; env = no_env })
        ≡ (ok (with_defaults (base_config env draws)), behind)
  first_load draws =
      load-ok reader none first draws _
        (record { file = some (default_env_file first); env = no_env }) env _
        (unfold write_if_missing in refl) file_read (env_read draws)

  later_load :
      (failure : Option Bytes) (other draws : Draws)
      → load reader failure other draws
          (record { file = some (default_env_file first); env = no_env })
        ≡ (ok (with_defaults (base_config env draws)), behind)
  later_load failure other draws =
      load-ok reader failure other draws _
        (record { file = some (default_env_file first); env = no_env }) env _
        (unfold write_if_missing in refl) file_read (env_read draws)

-- Where godotenv reads comments and plain settings, `rand.Read` fills its buffer of 16 or 24 bytes or
-- fails, the environment sets nothing, there is no .env file and its write succeeds: the first start returns a configuration with the secrets that it drew for the
-- file, and so does every later start from the file that it leaves, whatever that start draws.
pub load-Keeps :
    (reader : Reader) (first draws : Draws) (failure : Option Bytes) (other later : Draws)
    → ReadsPlain reader
    → Sixteen first.uuid
    → TwentyFour first.log_secret
    → TwentyFour first.worker_secret
    → let run = load reader none first draws (record { file = none; env = no_env }) in
      Keeps first run.0
      × Keeps first (load reader failure other later (record { file = run.1.file; env = no_env })).0
load-Keeps reader first draws failure other later reads u l w =
    rw
      (
        first_load reader reads first u l w draws,
        later_load reader reads first u l w failure other later,
      )
      (loaded-Keeps reader reads first u l w draws, loaded-Keeps reader reads first u l w later)
