-- ===== src/Config/RestartTests.antt =====
-- The theorem on a later start, with a reader that does what is asked of godotenv.
use xray_vless_ws_go.Base.{
  ℕ, ◌≡◌, refl, ap, ◌∙◌, Bool, true, false, List, [], ◌∷◌, ◌++◌, none, some, Bytes, codes, ◌==◌, ok,
  err, arith,
}
use xray_vless_ws_go.Config.Env.{Draws}
use xray_vless_ws_go.Config.EnvFile.{Reader, with_newlines, load}
use xray_vless_ws_go.Config.EnvFile.Plain.{is_one_line, are_plain, merged, ReadsPlain, no_env}
use xray_vless_ws_go.Config.EnvFile.Restart.{Keeps, load-Keeps}

abbrev onto : Bool → ℕ → List Bytes → List Bytes
onto true c ls = [] ∷ ls
onto false c [] = (c ∷ []) ∷ []
onto false c (l ∷ ls) = (c ∷ l) ∷ ls

abbrev lines_of : Bytes → List Bytes
lines_of [] = []
lines_of (c ∷ s) = onto (c == b'\n') c (lines_of s)

lines_of-line : (l s : Bytes) → is_one_line l ≡ true → lines_of (l ++ b'\n' ∷ s) ≡ l ∷ lines_of s
lines_of-line [] s h = refl
lines_of-line (c ∷ l) s h =
    let this : (c == b'\n') ≡ false = ground arith in
    let rest : is_one_line l ≡ true = ground arith in rw (this, lines_of-line l s rest) refl

lines_of-with_newlines : (ls : List Bytes) → are_plain ls ≡ true → lines_of (with_newlines ls) ≡ ls
lines_of-with_newlines [] h = refl
lines_of-with_newlines (l ∷ ls) h =
    lines_of-line l (with_newlines ls) (ground arith)
    ∙ ap (◌∷◌ l) (lines_of-with_newlines ls (ground arith))

abbrev reader : Reader
reader none env = err (codes "no such file")
reader (some content) env = ok (merged (lines_of content) env)

reader-ReadsPlain : ReadsPlain reader
reader-ReadsPlain lines env h = ap (λ ls. ok (merged ls env)) (lines_of-with_newlines lines h)

abbrev ones : Bytes
ones = 1 ∷ 1 ∷ 1 ∷ 1 ∷ 1 ∷ 1 ∷ 1 ∷ 1 ∷ []

-- rand.Read fails for one password of the first start, and yields other bytes at the second.
abbrev first : Draws
first = record {
  uuid = some (ones ++ ones);
  log_secret = some (ones ++ (ones ++ ones));
  worker_secret = none;
}

abbrev later : Draws
later = record { uuid = none; log_secret = some (1 ∷ []); worker_secret = some (2 ∷ []) }

load-Keeps_example :
    let run = load reader none first later (record { file = none; env = no_env }) in
    Keeps first run.0
    × Keeps first (load reader none later later (record { file = run.1.file; env = no_env })).0
load-Keeps_example =
    load-Keeps reader first later none later later reader-ReadsPlain (refl, omega arith)
      (refl, omega arith) tt
