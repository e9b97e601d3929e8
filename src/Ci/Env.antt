-- ===== src/Ci/Env.antt =====
-- internal/ci/env.go and timer.go. The environment is an argument, and so are the outcome of the write
-- and whether the timer fires before the context is cancelled.
use xray_vless_ws_go.Base.{
  Bool, [], ◌∷◌, Option, none, some, Bytes, codes, bytes_eq, concat, Result, ok, err, if◌then◌else◌,
}
use xray_vless_ws_go.Text.Trim.{trim_space}

-- The write that `ExportSecretEnv` makes, if it makes one: the path and the contents.
unfoldable pub secret_write : Bytes → Bytes → Option (Bytes × Bytes)
unfolding bytes_eq trim_space
secret_write env_path env_config =
    if bytes_eq env_config [] then none else some (env_path, trim_space env_config)

unfoldable pub export_secret_env :
    (write_file : Bytes × Bytes → Option Bytes) → Bytes → Bytes → Result Bytes (Unit {0})
unfolding secret_write
export_secret_env write_file env_path env_config = elim (secret_write env_path env_config) [
  | none ↦ ok tt
  | some file ↦ elim (write_file file) [
    | none ↦ ok tt
    | some e ↦ err (concat (codes "ci: writing " ∷ env_path ∷ codes " from ENV_CONFIG: " ∷ e ∷ []))
  ]
]

-- `ScheduleSelfExit` with its goroutine: the state behind it.
unfoldable pub schedule_self_exit : {W : Type 0} → (on_exit : W → W) → (elapsed : Bool) → W → W
schedule_self_exit on_exit elapsed w = if elapsed then on_exit w else w
