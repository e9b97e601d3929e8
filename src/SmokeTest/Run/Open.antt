-- ===== src/SmokeTest/Run/Open.antt =====
-- What stands open behind the actions of the smoke test, and the rules of its steps.
use xray_vless_ws_go.Base.{
  ◌≡◌, ap, ◌∙◌, Bool, true, false, ◌&&◌, ◌||◌, List, [], ◌∷◌, ◌++◌, Option, none, some, Bytes,
  Result, ok, err, not,
}
use xray_vless_ws_go.Base.Script.{fail, fail_if, Leaves, Triple, Triple-bind}
use xray_vless_ws_go.Xray.Json.{Json}
use xray_vless_ws_go.Config.{Config}
use xray_vless_ws_go.Text.Search.{contains}
use xray_vless_ws_go.SmokeTest.Outbound.{
  Patch, patched, no_object, no_outbounds, panicked, allow_private_ips,
}
use xray_vless_ws_go.SmokeTest.Vless.{strip_vless_response_header, await_payload}
use xray_vless_ws_go.SmokeTest.Run.{
  Resource, echo, reserved_port, ws_engine, released_port, xhttp_engine, ws_conn, tcp_conn,
  answer_body, SmokeAction, opened, closed, SmokeError, writing, reading, parsing_response,
  building_request, mismatch, SmokeAnswers, log, check, lift, patch_result, decoded, config_bytes,
  ping, receive, read_answer, whole, exchange,
}

-- What is open.
pub record Held : Type 0 where
  pub has_echo : Bool
  pub has_reserved : Bool
  pub has_ws : Bool
  pub has_released : Bool
  pub has_xhttp : Bool
  pub has_conn : Bool
  pub has_tcp : Bool
  pub has_body : Bool

abbrev pub set_held : Resource → Bool → Held → Held
set_held echo b h = record h { has_echo = b }
set_held reserved_port b h = record h { has_reserved = b }
set_held ws_engine b h = record h { has_ws = b }
set_held released_port b h = record h { has_released = b }
set_held xhttp_engine b h = record h { has_xhttp = b }
set_held ws_conn b h = record h { has_conn = b }
set_held tcp_conn b h = record h { has_tcp = b }
set_held answer_body b h = record h { has_body = b }

abbrev pub apply : SmokeAction → Held → Held
apply (opened r) h = set_held r true h
apply (closed r) h = set_held r false h

abbrev pub nothing : Held
nothing = record {
  has_echo = false;
  has_reserved = false;
  has_ws = false;
  has_released = false;
  has_xhttp = false;
  has_conn = false;
  has_tcp = false;
  has_body = false;
}

abbrev pub held : List SmokeAction → Held
held [] = nothing
held (a ∷ w) = apply a (held w)

-- Two of the four that listen on the port of xray-core.
abbrev pub clashes : Held → Bool
clashes h =
    (h.has_reserved && (h.has_ws || h.has_released || h.has_xhttp))
    || (h.has_ws && (h.has_released || h.has_xhttp))
    || (h.has_released && h.has_xhttp)

-- At no time two of them are open.
abbrev pub Exclusive : List SmokeAction → Type 0
Exclusive [] = Unit {0}
Exclusive (a ∷ w) = (clashes (held (a ∷ w)) ≡ false) × Exclusive w

abbrev pub At : Held → List SmokeAction → Type 0
At h w = (held w ≡ h) × Exclusive w

pub apply-At :
    (a : SmokeAction) (h : Held) (w : List SmokeAction)
    → clashes (apply a h) ≡ false
    → At h w
    → At (apply a h) (a ∷ w)
apply-At a h w c (e, x) = (ap (apply a) e, (ap (λ h'. clashes (apply a h')) e ∙ c, x))

check_lem :
    (P R : List SmokeAction → Type 0) (o : Option Bytes) (f : Bytes → SmokeError)
    (w : List SmokeAction)
    → P w
    → (P w → R w)
    → Leaves P R (check o f w)
check_lem P R none f w p r = p
check_lem P R (some e) f w p r = r p

lift_lem :
    {E A : Type 0} (P R : List SmokeAction → Type 0) (f : E → SmokeError) (x : Result E A)
    (w : List SmokeAction)
    → P w
    → (P w → R w)
    → Leaves P R (lift f x w)
lift_lem P R f (ok a) w p r = p
lift_lem P R f (err e) w p r = r p

module _ {R : List SmokeAction → Type 0} where
  pub Triple-log :
      (a : SmokeAction) (h : Held)
      → clashes (apply a h) ≡ false
      → Triple (At h) (At (apply a h)) R (log a)
  Triple-log a h c = record { at = λ w p. apply-At a h w c p }

  pub Triple-check :
      {P : List SmokeAction → Type 0} (o : Option Bytes) (f : Bytes → SmokeError)
      → ((w : List SmokeAction) → P w → R w)
      → Triple P P R (check o f)
  Triple-check {P = P} o f r = record { at = λ w p. check_lem P R o f w p (r w) }

  Triple-lift :
      {E A : Type 0} {P : List SmokeAction → Type 0} (f : E → SmokeError) (x : Result E A)
      → ((w : List SmokeAction) → P w → R w)
      → Triple P P R (lift f x)
  Triple-lift {P = P} f x r = record { at = λ w p. lift_lem P R f x w p (r w) }

  pub Triple-fail_in :
      {A : Type 0} {P Q : List SmokeAction → Type 0} (e : SmokeError)
      → ((w : List SmokeAction) → P w → R w)
      → Triple {A = A} P Q R (fail e)
  Triple-fail_in e r = record { at = λ w p. r w p }

module _ (a : SmokeAnswers) {P R : List SmokeAction → Type 0}
    (r : (w : List SmokeAction) → P w → R w) where
  -- What neither opens nor closes anything.
  decoded_lem : (o : Option Json) → Triple P P R (decoded a o)
  decoded_lem none = Triple-fail_in _ r
  decoded_lem (some j) = by_patch (allow_private_ips j)
    where
      by_patch : (p : Patch) → Triple P P R (patch_result a p)
      by_patch (patched j') = Triple-lift _ (a.marshal j') r
      by_patch no_object = Triple-fail_in _ r
      by_patch no_outbounds = Triple-fail_in _ r
      by_patch panicked = Triple-fail_in _ r

  pub Triple-config_bytes : (cfg : Config) → Triple P P R (config_bytes a cfg)
  unfolding config_bytes
  Triple-config_bytes cfg =
      Triple-bind (Triple-lift _ _ r) (λ bytes. decoded_lem (a.unmarshal bytes))

  whole_lem : (o : Option Bytes) → Triple P P R (whole o)
  whole_lem none = Triple-fail_in _ r
  whole_lem (some body) = record { at = λ w p. p }

  fail_if_lem : (c : Bool) (e : SmokeError) → Triple P P R (fail_if c e)
  fail_if_lem true e = record { at = λ w p. r w p }
  fail_if_lem false e = record { at = λ w p. p }

  Triple-receive : (body : Bytes) → Triple P P R (receive a body)
  unfolding receive
  Triple-receive body =
      Triple-bind (whole_lem (await_payload ping body a.frames))
        (λ body'. fail_if_lem (not (contains body' ping)) mismatch)

  Triple-read_answer : (frame : Bytes) → Triple P P R (read_answer a frame)
  unfolding read_answer
  Triple-read_answer frame =
      Triple-bind (Triple-lift parsing_response (strip_vless_response_header frame) r)
        (λ body. Triple-receive body)

  pub Triple-exchange : Triple P P R (exchange a)
  unfolding exchange
  Triple-exchange = Triple-bind (Triple-lift building_request _ r) (λ request.
      Triple-bind (Triple-check (a.write (request ++ ping)) writing r) (λ _.
        Triple-bind (Triple-lift reading a.first_frame r) (λ frame. Triple-read_answer frame)))
