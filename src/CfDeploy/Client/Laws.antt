-- ===== src/CfDeploy/Client/Laws.antt =====
-- When a request to Cloudflare counts as done.
use xray_vless_ws_go.Base.{
  ℕ, ◌<◌, ◌≡◌, refl, ap, ◌∙◌, ◌↔◌, Bool, true, false, not, ◌||◌, Option, none, some, arith, Bytes,
  leb, Result, ok, err,
}
use xray_vless_ws_go.CfDeploy.Client.{
  Envelope, Answer, not_built, not_sent, not_read, answered, read_envelope, do_request,
}

-- An answer that gives this result: a JSON envelope of success with a status below 300.
pub record Succeeds (unmarshal : Bytes → Option Envelope) (a : Answer) (r : Bytes) : Type 0 where
  pub status : ℕ
  pub raw : Bytes
  pub envelope : Envelope
  pub is_answered : a ≡ answered status raw
  pub decodes : unmarshal raw ≡ some envelope
  pub is_success : envelope.success ≡ true
  pub in_range : status < 300
  pub same : envelope.result ≡ r

refused : {e r : Bytes} → ◌≡◌ {A = Result Bytes Bytes} (err e) (ok r) → ⊥
refused h = cc

result_same : {a b : Bytes} → ◌≡◌ {A = Result Bytes Bytes} (ok a) (ok b) → a ≡ b
result_same h = cc

module _ (unmarshal : Bytes → Option Envelope) (method path : Bytes) where
  read_envelope-ok :
      (status : ℕ) (raw r : Bytes) (o : Option Envelope)
      → unmarshal raw ≡ o
      → read_envelope unmarshal method path status raw o ≡ ok r
      → Succeeds unmarshal (answered status raw) r
  unfolding read_envelope
  read_envelope-ok status raw r none d h = cc
  read_envelope-ok status raw r (some env) d h = by_test (not env.success || leb 300 status) refl
    where
      by_test :
          (b : Bool)
          → (not env.success || leb 300 status) ≡ b
          → Succeeds unmarshal (answered status raw) r
      by_test true t = absurd (refused (rw t at h))
      by_test false t = record {
        status = status;
        raw = raw;
        envelope = env;
        is_answered = refl;
        decodes = d;
        is_success = ground (arith, t);
        in_range = ground (arith, t);
        same = result_same (rw t at h);
      }

  do_request-ok :
      (a : Answer) (r : Bytes) → do_request unmarshal method path a ≡ ok r → Succeeds unmarshal a r
  unfolding do_request
  do_request-ok (not_built e) r h = cc
  do_request-ok (not_sent e) r h = cc
  do_request-ok (not_read status e) r h = cc
  do_request-ok (answered status raw) r h = read_envelope-ok status raw r (unmarshal raw) refl h

  read_envelope-success :
      (status : ℕ) (raw : Bytes) (env : Envelope)
      → env.success ≡ true
      → status < 300
      → read_envelope unmarshal method path status raw (some env) ≡ ok env.result
  unfolding read_envelope
  read_envelope-success status raw env s l =
      let in_range : leb 300 status ≡ false = ground (arith, l) in
      rw (read_envelope, s, in_range) refl

  do_request_complete :
      (a : Answer) (r : Bytes) → Succeeds unmarshal a r → do_request unmarshal method path a ≡ ok r
  unfolding do_request
  do_request_complete a r h =
      ap (do_request unmarshal method path) h.is_answered
      ∙ ap (read_envelope unmarshal method path h.status h.raw) h.decodes
      ∙ read_envelope-success h.status h.raw h.envelope h.is_success h.in_range
      ∙ ap ok h.same

  -- A request gives a result exactly where the answer came, decodes to an envelope of success, and has
  -- a status below 300; the result is the one of the envelope. On every other path it is an error.
  pub do_request-Succeeds :
      (a : Answer) (r : Bytes)
      → (do_request unmarshal method path a ≡ ok r) ↔ Succeeds unmarshal a r
  do_request-Succeeds a r = (do_request-ok a r, do_request_complete a r)
