-- ===== src/Config/EnvFile/Laws.antt =====
-- What Load leaves on the disk, and what it returns.
use xray_vless_ws_go.Base.{
  ◌≡◌, refl, sym, ◌∙◌, ◌⊎◌, inl, inr, Option, none, some, Bytes, Result, ok, err,
}
use xray_vless_ws_go.Base.Script.{Leaves, Triple-bind, Triple-always}
use xray_vless_ws_go.Config.Env.{Environ, Draws}
use xray_vless_ws_go.Config.EnvFile.{
  World, LoadError, writing, loading, Reader, read_file, write_if_missing, load, default_env_file,
}

module _ (reader : Reader) (failure : Option Bytes) (for_file for_env : Draws)
    (old : Option Bytes) where
  -- The file is as it was, or it was missing and is the generated one.
  abbrev pub IsKept : World → Type 0
  IsKept w = (w.file ≡ old) ⊎ (old ≡ none) × (w.file ≡ some (default_env_file for_file))

  abbrev After : Result LoadError (Unit {0}) × World → Type 0
  After r = IsKept r.1

  write_if_missing-IsKept :
      (w : World) → w.file ≡ old → IsKept (write_if_missing failure for_file w).1
  unfolding write_if_missing
  write_if_missing-IsKept w h = by_file w.file failure refl
    where
      by_file :
          (file f : Option Bytes)
          → w.file ≡ file
          → After (elim file [
            | some content ↦ (ok tt, w)
            | none ↦ elim f [
              | some e ↦ (err (writing e), w)
              | none ↦ (ok tt, record { file = some (default_env_file for_file); env = w.env })
            ]
          ])
      by_file (some content) f e = inl h
      by_file none (some x) e = inl h
      by_file none none e = inr (sym h ∙ e, refl)

  read_file-IsKept : (w : World) → IsKept w → IsKept (read_file reader w).1
  unfolding read_file
  read_file-IsKept w h = by_result (reader w.file w.env)
    where
      by_result :
          (r : Result Bytes Environ)
          → After (elim r [
            | err e ↦ (err (loading e), w)
            | ok env ↦ (ok tt, record { file = w.file; env = env })
          ])
      by_result (ok env) = h
      by_result (err e) = h

  -- Load never changes an .env file that is there; where there is none it leaves none or the generated
  -- one, whose secrets a later start reads.
  load-IsKept :
      (env : Environ)
      → Leaves IsKept IsKept
          (load reader failure for_file for_env (record { file = old; env = env }))
  unfolding load
  load-IsKept env =
      (Triple-bind {P = λ w. w.file ≡ old} {Q = IsKept} (Triple-always write_if_missing-IsKept)
          (λ _.
            Triple-bind {Q = IsKept} (Triple-always read_file-IsKept)
              (λ _. Triple-always (λ w h. h)))).at
        (record { file = old; env = env }) refl
