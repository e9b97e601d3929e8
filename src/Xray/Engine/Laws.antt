-- ===== src/Xray/Engine/Laws.antt =====
-- The life of an engine: New, Start, Traffic, Close.
use xray_vless_ws_go.Base.{
  ◌≡◌, refl, ap, ◌∙◌, inl, inr, Bool, false, Option, none, some, Bytes, Result, ok, err,
  if◌then◌else◌, Bool-cases,
}
use xray_vless_ws_go.Xray.Engine.{
  Call, returned, panicked, Core, Engine, counters, with_counters, started, new, traffic,
  close_once, close_with, close, start,
}

module _ {S I M C : Type 0} (core : Core S I M C) where
  close_once-twice :
      (i : I) (e : Engine I C) (s : S)
      → close_once core i (close_once core i e s).0 (close_once core i e s).1
        ≡ close_once core i e s
  unfolding close_once
  close_once-twice i e s = elim (Bool-cases e.closed) [ inl h ↦ rw h refl | inr h ↦ rw h refl ]

  close_once-instance :
      (i : I) (e : Engine I C) (s : S) → (close_once core i e s).0.core_instance ≡ e.core_instance
  unfolding close_once
  close_once-instance i e s = elim (Bool-cases e.closed) [ inl h ↦ rw h refl | inr h ↦ rw h refl ]

  close_with-twice :
      (o : Option I) (e : Engine I C) (s : S)
      → e.core_instance ≡ o
      → close core (close_with core o e s).1 (close_with core o e s).2 ≡ close_with core o e s
  unfolding close close_with
  close_with-twice none e s h = ap (λ o. close_with core o e s) h
  close_with-twice (some i) e s h =
      let after = close_once core i e s in
      ap (λ o. close_with core o after.0 after.1) (close_once-instance i e s ∙ h)
      ∙ ap (λ r. (r.0.close_err, some r.0, r.1)) (close_once-twice i e s)

  -- After a Close, with whatever result, a second one returns the same and leaves the engine and
  -- xray-core as they are: an instance is closed at most once.
  close-twice :
      (e : Option (Engine I C)) (s : S)
      → close core (close core e s).1 (close core e s).2 ≡ close core e s
  unfolding close
  close-twice none s = refl
  close-twice (some e) s = close_with-twice e.core_instance e s refl

  -- Whether Traffic has counters to read.
  abbrev pub counts : Option (Engine I C) → S → Bool
  counts e s = (traffic core e s).2

  -- What New promises: an engine or an error, and where there is no error an engine that Start accepts.
  abbrev pub IsNew : Option (Engine I C) × Option Bytes → Type 0
  IsNew (e, none) = start e ≡ none
  IsNew (e, some t) = (s : S) → counts e s ≡ false

  with_counters-IsNew :
      (i : I) (c : Call (Option (C × C))) (s : S) → IsNew (with_counters core i (c, s)).0
  unfolding with_counters start traffic
  with_counters-IsNew i (panicked t) s = λ s'. refl
  with_counters-IsNew i (returned none) s = refl
  with_counters-IsNew i (returned (some c)) s = refl

  started-IsNew : (c : Call (Result Bytes I)) (s : S) → IsNew (started core (c, s)).0
  unfolding started traffic
  started-IsNew (panicked t) s = λ s'. refl
  started-IsNew (returned (err e)) s = λ s'. refl
  started-IsNew (returned (ok i)) s =
      with_counters-IsNew i (counters core i s).0 (counters core i s).1

  -- Whatever xray-core returns or panics with, New gives either an engine that Start accepts, or an
  -- error and an engine without counters.
  new-IsNew :
      (cfg_bytes : Bytes) (has_sink : Bool) (s : S) → IsNew (new core cfg_bytes has_sink s).0
  unfolding new
  new-IsNew cfg_bytes has_sink s =
      let r = core.start_instance cfg_bytes (if has_sink then core.register_handler s else s) in
      started-IsNew r.0 r.1
