-- ===== src/LogServer/Ring/Delivery.antt =====
-- What `Since` gives of a whole history of pushes to a caller that has its first lines.
use xray_vless_ws_go.Base.{
  ℕ, zero, suc, ◌+◌, ◌-◌, ◌≤◌, ◌≡◌, refl, ap, ap₂, subst, ◌∙◌, List, [], ◌∷◌, ◌++◌, ltb, inl, inr,
  Bool-cases, arith, length, length-append, drop,
}
use xray_vless_ws_go.Text.Decimal.{ℤ, pos}
use xray_vless_ws_go.LogServer.Ring.{LogLine, Ring, capacity, new_ring, is_after, since}
use xray_vless_ws_go.LogServer.Ring.Invariant.{
  Numbered, lines_after, lines_after-all, since-lines_after,
}
use xray_vless_ws_go.LogServer.Ring.History.{
  Entry, push_all, number, take_last, lines_after-drop, length-number, number-append-number,
  Numbered-number, push_all-new-IsValid, push_all-take_last,
}

drop-append_ge {ℓ} :
    {A : Type ℓ} (n : ℕ) (xs ys : List A)
    → length xs ≤ n
    → drop n (xs ++ ys) ≡ drop (n - length xs) ys
drop-append_ge zero [] ys h = refl
drop-append_ge zero (x ∷ xs) ys h = absurd (omega arith)
drop-append_ge (suc n) [] ys h = ap (λ (i : ℕ). drop i ys) {x = suc n} (omega arith)
drop-append_ge (suc n) (x ∷ xs) ys h =
    drop-append_ge n xs ys (omega arith)
    ∙ ap (λ (i : ℕ). drop i ys) {x = n - length xs} (omega arith)

Numbered-drop : (n k : ℕ) (ls : List LogLine) → Numbered n ls → Numbered (n + k) (drop k ls)
Numbered-drop n zero ls h = subst (λ (i : ℕ). Numbered i ls) {x = n} (omega arith) h
Numbered-drop n (suc k) [] h = tt
Numbered-drop n (suc k) (l ∷ ls) (e, h) =
    subst (λ (i : ℕ). Numbered i (drop k ls)) {x = suc n + k} (omega arith)
      (Numbered-drop (suc n) k ls h)

module _ (done es : List Entry) where
  -- A buffer that forgot more than the caller has.
  lines_after-drop_over :
      (k : ℕ)
      → length done ≤ k
      → lines_after (pos (length done)) (drop k (number 1 (done ++ es)))
        ≡ drop (k - length done) (number (suc (length done)) es)
  lines_after-drop_over k h =
      ap (lines_after (pos (length done))) (
        ap (drop k) (number-append-number 1 done es)
        ∙ drop-append_ge k (number 1 done) (number (1 + length done) es)
            (omega (arith, length-number 1 done))
        ∙ ap₂ (λ (i j : ℕ). drop i (number j es)) left next)
      ∙ lines_after-all (pos (length done)) (suc (length done) + (k - length done)) _
          (unfold is_after in ground arith)
          (Numbered-drop (suc (length done)) (k - length done) _
            (Numbered-number (suc (length done)) es))
    where
      left : k - length (number 1 done) ≡ k - length done
      left = omega (arith, length-number 1 done)

      next : 1 + length done ≡ suc (length done)
      next = omega arith

  lines_after-drop_any :
      (k : ℕ)
      → lines_after (pos (length done)) (drop k (number 1 (done ++ es)))
        ≡ drop (k - length done) (number (suc (length done)) es)
  lines_after-drop_any k = elim (Bool-cases (ltb (length done) k)) [
    | inl over ↦ lines_after-drop_over k (ground (arith, over))
    | inr within ↦
        lines_after-drop done es k (ground (arith, length-number 1 done, within))
        ∙ ap (λ (i : ℕ). drop i (number (suc (length done)) es)) {x = 0} (ground (arith, within))
  ]

  -- A caller that has the first lines of a history gets the newest of the others, as many as the
  -- buffer holds, and the length of the history.
  pub since-take_last :
      (max_logs : ℤ)
      → since (push_all (new_ring max_logs) (done ++ es)) (pos (length done))
        ≡ (take_last (capacity max_logs) (number (suc (length done)) es), length (done ++ es))
  since-take_last max_logs =
      since-lines_after ring (pos (length done)) (push_all-new-IsValid max_logs (done ++ es))
      ∙ ap₂ (λ (ls : List LogLine) (n : ℕ). (lines_after (pos (length done)) ls, n)) held.0 held.1
      ∙ ap (λ (ls : List LogLine). (ls, length (done ++ es)))
          (lines_after-drop_any (length (number 1 (done ++ es)) - capacity max_logs)
            ∙ ap (λ (i : ℕ). drop i (number (suc (length done)) es))
                (omega (
                  arith,
                  length-number 1 (done ++ es),
                  length-number (suc (length done)) es,
                  length-append done es,
                )))
    where
      ring : Ring
      ring = push_all (new_ring max_logs) (done ++ es)

      held :
          (ring.logs ≡ take_last (capacity max_logs) (number 1 (done ++ es)))
          × (ring.seq ≡ length (done ++ es))
      held = push_all-take_last max_logs (done ++ es)
