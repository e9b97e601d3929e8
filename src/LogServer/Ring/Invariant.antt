-- ===== src/LogServer/Ring/Invariant.antt =====
-- The ids of the lines are consecutive and end at `seq`, and the buffer never exceeds its capacity.
use xray_vless_ws_go.Base.{
  ℕ, zero, suc, ◌+◌, ◌≤◌, ◌<◌, ◌≡◌, refl, ap, sym, true, List, [], ◌∷◌, ◌++◌, arith, Bytes, ltb,
  Bool, if◌then◌else◌, inl, inr, Bool-cases, length, length-append, drop,
}
use xray_vless_ws_go.Text.Decimal.{ℤ, pos, negsuc}
use xray_vless_ws_go.LogServer.Ring.{
  LogLine, Ring, new_ring, trim_oldest, push, is_after, from_first_after, since,
}

-- The lines are numbered from `first` on.
abbrev pub Numbered : ℕ → List LogLine → Type 0
Numbered first [] = Unit {0}
Numbered first (l ∷ ls) = (l.id ≡ first) × Numbered (suc first) ls

pub record IsValid (r : Ring) : Type 0 where
  pub first : ℕ
  pub numbered : Numbered first r.logs
  pub last : first + length r.logs ≡ suc r.seq
  pub bounded : length r.logs ≤ r.max_logs
  pub roomy : 0 < r.max_logs

Numbered-append :
    (n : ℕ) (ls : List LogLine) (l : LogLine)
    → Numbered n ls
    → l.id ≡ n + length ls
    → Numbered n (ls ++ l ∷ [])
Numbered-append n [] l h e = (omega arith, tt)
Numbered-append n (x ∷ ls) l (hx, h) e = (hx, Numbered-append (suc n) ls l h (omega arith))

pub new_ring-IsValid : (max_logs : ℤ) → IsValid (new_ring max_logs)
unfolding new_ring
new_ring-IsValid (pos zero) = record {
  first = 1;
  numbered = tt;
  last = refl;
  bounded = omega arith;
  roomy = omega arith;
}
new_ring-IsValid (pos (suc n)) = record {
  first = 1;
  numbered = tt;
  last = refl;
  bounded = omega arith;
  roomy = omega arith;
}
new_ring-IsValid (negsuc n) = record {
  first = 1;
  numbered = tt;
  last = refl;
  bounded = omega arith;
  roomy = omega arith;
}

drop-IsValid :
    (limit first seq : ℕ) (ls : List LogLine)
    → Numbered first ls
    → first + length ls ≡ suc seq
    → length ls ≡ suc limit
    → 0 < limit
    → IsValid (record { max_logs = limit; logs = drop 1 ls; seq = seq })
drop-IsValid limit first seq [] h e b c = absurd (omega arith)
drop-IsValid limit first seq (l ∷ ls) h e b c = record {
  first = suc first;
  numbered = h.1;
  last = omega arith;
  bounded = omega arith;
  roomy = c;
}

trim_oldest-IsValid :
    (limit first seq : ℕ) (ls : List LogLine)
    → Numbered first ls
    → first + length ls ≡ suc seq
    → length ls ≤ suc limit
    → 0 < limit
    → IsValid (record { max_logs = limit; logs = trim_oldest limit ls; seq = seq })
unfolding trim_oldest
trim_oldest-IsValid limit first seq ls h e b c = elim (Bool-cases (ltb limit (length ls))) [
  | inl over ↦ rw over (drop-IsValid limit first seq ls h e (ground arith) c)
  | inr fits ↦
      rw fits (record { first = first; numbered = h; last = e; bounded = ground arith; roomy = c })
]

-- A push keeps the ids consecutive and the buffer within its capacity.
pub push-IsValid :
    (r : Ring) (time source text : Bytes) → IsValid r → IsValid (push r time source text)
unfolding push
push-IsValid r time source text v =
    trim_oldest-IsValid r.max_logs v.first (suc r.seq) _
      (Numbered-append v.first r.logs _ v.numbered (omega (arith, v.last)))
      (omega (arith, v.last, length-append r.logs (line ∷ [])))
      (omega (arith, v.bounded, length-append r.logs (line ∷ []))) v.roomy
  where
    line : LogLine
    line = record { id = suc r.seq; time = time; type = source; text = text }

-- An id is newer than any negative one, and than any smaller one.
abbrev is_newer : ℤ → ℕ → Bool
is_newer (pos n) id = ltb n id
is_newer (negsuc n) id = true

is_after-is_newer : (last_id : ℤ) (id : ℕ) → is_after last_id id ≡ is_newer last_id id
unfolding is_after
is_after-is_newer (pos n) id = refl
is_after-is_newer (negsuc n) id = refl

-- The lines with a newer id than `lastID`, picked one by one.
unfoldable pub lines_after : ℤ → List LogLine → List LogLine
lines_after last_id [] = []
lines_after last_id (l ∷ ls) =
    if is_newer last_id l.id then l ∷ lines_after last_id ls else lines_after last_id ls

is_newer-suc : (last_id : ℤ) (n : ℕ) → is_newer last_id n ≡ true → is_newer last_id (suc n) ≡ true
is_newer-suc (pos m) n h = ground arith
is_newer-suc (negsuc m) n h = refl

pub lines_after-all :
    (last_id : ℤ) (n : ℕ) (ls : List LogLine)
    → is_newer last_id n ≡ true
    → Numbered n ls
    → lines_after last_id ls ≡ ls
unfolding lines_after
lines_after-all last_id n [] h k = refl
lines_after-all last_id n (l ∷ ls) h (e, k) =
    let now : is_newer last_id l.id ≡ true = rw e h in
    rw now (ap (◌∷◌ l) (lines_after-all last_id (suc n) ls (is_newer-suc last_id n h) k))

from_first_after-lines_after :
    (last_id : ℤ) (n : ℕ) (ls : List LogLine)
    → Numbered n ls
    → from_first_after last_id ls ≡ lines_after last_id ls
unfolding from_first_after lines_after
from_first_after-lines_after last_id n [] h = refl
from_first_after-lines_after last_id n (l ∷ ls) (e, h) = elim (Bool-cases (is_newer last_id l.id)) [
  | inl now ↦
      rw (is_after-is_newer last_id l.id, now)
        (sym (
          ap (◌∷◌ l) (lines_after-all last_id (suc n) ls (is_newer-suc last_id n (rw e at now)) h)))
  | inr later ↦
      rw (is_after-is_newer last_id l.id, later) (from_first_after-lines_after last_id (suc n) ls h)
]

-- On a valid buffer `Since` returns exactly the lines whose id is after `lastID`, and the last id
-- given out: stopping at the first such line loses none and adds none.
pub since-lines_after :
    (r : Ring) (last_id : ℤ) → IsValid r → since r last_id ≡ (lines_after last_id r.logs, r.seq)
unfolding since
since-lines_after r last_id v =
    ap (λ ls. (ls, r.seq)) (from_first_after-lines_after last_id v.first r.logs v.numbered)
