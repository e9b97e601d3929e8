-- ===== src/LogServer/Ring/History.antt =====
-- The buffer against the whole history of pushes.
use xray_vless_ws_go.Base.{
  ℕ, zero, suc, ◌+◌, ◌-◌, ◌≤◌, ◌<◌, ◌≡◌, refl, ap, ap₂, sym, ◌∙◌, List, [], ◌∷◌, ◌++◌, append_assoc,
  append-nil, arith, Bytes, ltb, tests, inl, inr, Bool-cases, length, length-append, length-drop,
  drop, All,
}
use xray_vless_ws_go.Text.Decimal.{ℤ, pos, negsuc}
use xray_vless_ws_go.LogServer.Ring.{LogLine, Ring, capacity, new_ring, trim_oldest, push, is_after}
use xray_vless_ws_go.LogServer.Ring.Invariant.{
  IsValid, Numbered, push-IsValid, new_ring-IsValid, lines_after, lines_after-all,
}

-- A call of `Push`, with the time at which it is made.
pub record Entry : Type 0 where
  pub time : Bytes
  pub source : Bytes
  pub text : Bytes

unfoldable pub push_all : Ring → List Entry → Ring
push_all r [] = r
push_all r (e ∷ es) = push_all (push r e.time e.source e.text) es

-- The lines of the entries, numbered from `n` on: the history that nothing forgets.
abbrev pub line_of : ℕ → Entry → LogLine
line_of n e = record { id = n; time = e.time; type = e.source; text = e.text }

abbrev pub number : ℕ → List Entry → List LogLine
number n [] = []
number n (e ∷ es) = line_of n e ∷ number (suc n) es

-- The last `k` of a list.
abbrev pub take_last {ℓ} : {A : Type ℓ} → ℕ → List A → List A
take_last k xs = drop (length xs - k) xs

push_all-IsValid : (r : Ring) (es : List Entry) → IsValid r → IsValid (push_all r es)
unfolding push_all
push_all-IsValid r [] v = v
push_all-IsValid r (e ∷ es) v =
    push_all-IsValid (push r e.time e.source e.text) es (push-IsValid r e.time e.source e.text v)

-- However the entries come, the ids stay consecutive and the buffer within its capacity.
pub push_all-new-IsValid :
    (max_logs : ℤ) (es : List Entry) → IsValid (push_all (new_ring max_logs) es)
push_all-new-IsValid max_logs es =
    push_all-IsValid (new_ring max_logs) es (new_ring-IsValid max_logs)

pub drop-append_le {ℓ} :
    {A : Type ℓ} (n : ℕ) (xs ys : List A) → n ≤ length xs → drop n (xs ++ ys) ≡ drop n xs ++ ys
drop-append_le zero xs ys h = refl
drop-append_le (suc n) [] ys h = absurd (omega arith)
drop-append_le (suc n) (x ∷ xs) ys h = drop-append_le n xs ys (omega arith)

pub drop-nil : (n : ℕ) → drop {A = LogLine} n [] ≡ []
drop-nil zero = refl
drop-nil (suc n) = refl

drop_one-drop {ℓ} : {A : Type ℓ} (n : ℕ) (xs : List A) → drop 1 (drop n xs) ≡ drop (suc n) xs
drop_one-drop zero xs = refl
drop_one-drop (suc n) [] = refl
drop_one-drop (suc n) (x ∷ xs) = drop_one-drop n xs

-- Trimming the last `k` of a history and one more line.
trim_oldest-drop :
    (k n : ℕ) (xs : List LogLine)
    → length xs ≡ suc n
    → 0 < k
    → trim_oldest k (drop (n - k) xs) ≡ drop (suc n - k) xs
unfolding trim_oldest
trim_oldest-drop k n xs e h = elim (Bool-cases (ltb k (length (drop (n - k) xs)))) [
  | inl over ↦ rw over (
      drop_one-drop (n - k) xs
      ∙ ap (λ (j : ℕ). drop j xs) {x = suc (n - k)} (omega (tests, length-drop (n - k) xs, over)))
  | inr fits ↦ rw fits (ap (λ (j : ℕ). drop j xs) (ground (arith, length-drop (n - k) xs, fits)))
]

trim_oldest-take_last :
    (k : ℕ) (xs : List LogLine) (l : LogLine)
    → 0 < k
    → trim_oldest k (take_last k xs ++ l ∷ []) ≡ take_last k (xs ++ l ∷ [])
trim_oldest-take_last k xs l h =
    let size : length (xs ++ l ∷ []) ≡ suc (length xs) = omega (arith, length-append xs (l ∷ [])) in
    rw (← drop-append_le (length xs - k) xs (l ∷ []) (omega arith), size)
      (trim_oldest-drop k (length xs) (xs ++ l ∷ []) size h)

number-append :
    (n : ℕ) (es : List Entry) (e : Entry)
    → number n (es ++ e ∷ []) ≡ number n es ++ line_of (n + length es) e ∷ []
number-append n [] e = ap (λ (i : ℕ). line_of i e ∷ []) (omega arith)
number-append n (x ∷ es) e = ap (◌∷◌ (line_of n x)) (
    number-append (suc n) es e
    ∙ ap (λ (i : ℕ). number (suc n) es ++ line_of i e ∷ []) (omega arith))

-- A ring that holds the last lines of a history.
abbrev Holds : Ring → List Entry → Type 0
Holds r done =
    (r.logs ≡ take_last r.max_logs (number 1 done)) × (r.seq ≡ length done) × (0 < r.max_logs)

push-Holds :
    (r : Ring) (done : List Entry) (e : Entry)
    → Holds r done
    → Holds (push r e.time e.source e.text) (done ++ e ∷ [])
unfolding push
push-Holds r done e (logs, seq, room) = (
  ap₂ (λ (ls : List LogLine) (i : ℕ). trim_oldest r.max_logs (ls ++ line_of i e ∷ [])) logs next
      ∙ trim_oldest-take_last r.max_logs (number 1 done) (line_of (1 + length done) e) room
      ∙ ap (take_last r.max_logs) (sym (number-append 1 done e)),
  omega (arith, length-append done (e ∷ []), seq),
  room,
)
  where
    next : suc r.seq ≡ 1 + length done
    next = omega (arith, seq)

pub push_all-Holds :
    (r : Ring) (done es : List Entry) → Holds r done → Holds (push_all r es) (done ++ es)
unfolding push_all
push_all-Holds r done [] h = rw append-nil h
push_all-Holds r done (e ∷ es) h =
    rw (← append_assoc done (e ∷ []) es)
      (push_all-Holds (push r e.time e.source e.text) (done ++ e ∷ []) es (push-Holds r done e h))

pub capacity-pos : (max_logs : ℤ) → 0 < capacity max_logs
unfolding capacity
capacity-pos (pos zero) = omega arith
capacity-pos (pos (suc n)) = omega arith
capacity-pos (negsuc n) = omega arith

push_all-max_logs : (r : Ring) (es : List Entry) → (push_all r es).max_logs ≡ r.max_logs
unfolding push_all push
push_all-max_logs r [] = refl
push_all-max_logs r (e ∷ es) = push_all-max_logs (push r e.time e.source e.text) es

-- After any history of pushes the buffer holds the last lines of the history, as many as its
-- capacity, numbered by their place in the history, and `seq` counts the history.
pub push_all-take_last :
    (max_logs : ℤ) (es : List Entry)
    → let r = push_all (new_ring max_logs) es in
      (r.logs ≡ take_last (capacity max_logs) (number 1 es)) × (r.seq ≡ length es)
unfolding new_ring
push_all-take_last max_logs es =
    let start = new_ring max_logs in
    let holds =
      push_all-Holds start [] es
        (sym (drop-nil (0 - capacity max_logs)), refl, capacity-pos max_logs) in
    (holds.0 ∙ ap (λ (k : ℕ). take_last k (number 1 es)) (push_all-max_logs start es), holds.1)

pub length-number : (n : ℕ) (es : List Entry) → length (number n es) ≡ length es
length-number n [] = refl
length-number n (e ∷ es) = ap suc (length-number (suc n) es)

pub number-append-number :
    (n : ℕ) (es fs : List Entry) → number n (es ++ fs) ≡ number n es ++ number (n + length es) fs
number-append-number n [] fs = ap (λ (i : ℕ). number i fs) {x = n} (omega arith)
number-append-number n (e ∷ es) fs = ap (◌∷◌ (line_of n e)) (
    number-append-number (suc n) es fs
    ∙ ap (λ (i : ℕ). number (suc n) es ++ number i fs) {x = suc n + length es} (omega arith))

pub Numbered-number : (n : ℕ) (es : List Entry) → Numbered n (number n es)
Numbered-number n [] = tt
Numbered-number n (e ∷ es) = (refl, Numbered-number (suc n) es)

AtMost : ℕ → LogLine → Type 0
AtMost n l = l.id ≤ n

number-AtMost : (m n : ℕ) (es : List Entry) → m + length es ≤ suc n → All (AtMost n) (number m es)
unfolding AtMost
number-AtMost m n [] h = tt
number-AtMost m n (e ∷ es) h = (omega arith, number-AtMost (suc m) n es (omega arith))

All-drop {ℓ κ} : {A : Type ℓ} (P : A → Type κ) (n : ℕ) (xs : List A) → All P xs → All P (drop n xs)
All-drop P zero xs h = h
All-drop P (suc n) [] h = tt
All-drop P (suc n) (x ∷ xs) (hx, h) = All-drop P n xs h

lines_after-AtMost :
    (n : ℕ) (ls ms : List LogLine)
    → All (AtMost n) ls
    → lines_after (pos n) (ls ++ ms) ≡ lines_after (pos n) ms
unfolding lines_after is_after AtMost
lines_after-AtMost n [] ms h = refl
lines_after-AtMost n (l ∷ ls) ms (hl, h) = ground (arith, lines_after-AtMost n ls ms h)

pub lines_after-drop :
    (done es : List Entry) (k : ℕ)
    → k ≤ length (number 1 done)
    → lines_after (pos (length done)) (drop k (number 1 (done ++ es)))
      ≡ number (suc (length done)) es
lines_after-drop done es k h =
    rw
      (
        number-append-number 1 done es,
        drop-append_le k (number 1 done) (number (1 + length done) es) h,
      )
      (lines_after-AtMost (length done) (drop k (number 1 done)) (number (1 + length done) es) (
          All-drop (AtMost (length done)) k (number 1 done)
            (number-AtMost 1 (length done) done (omega arith)))
        ∙ lines_after-all (pos (length done)) (1 + length done) (number (1 + length done) es)
            (unfold is_after in ground arith) (Numbered-number (1 + length done) es)
        ∙ ap (λ (i : ℕ). number i es) {x = 1 + length done} (omega arith))
