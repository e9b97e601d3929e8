-- ===== src/LogServer/Ring.antt =====
-- internal/logserver/ring.go. The time of a line is an argument of `push`. `seq` is a Go int and is
-- left unbounded: it would take 2^63 lines to wrap around.
pub mod Invariant
pub mod History
pub mod Delivery
use xray_vless_ws_go.Base.{
  ℕ, zero, suc, ◌+◌, ◌<◌, ◌≡◌, refl, Bool, true, false, List, [], ◌∷◌, ◌++◌, Bytes, codes, ltb,
  if◌then◌else◌, length, drop,
}
use xray_vless_ws_go.Text.Decimal.{ℤ, pos, negsuc}

pub record LogLine : Type 0 where
  pub id : ℕ
  pub time : Bytes
  pub type : Bytes
  pub text : Bytes

pub record Ring : Type 0 where
  pub max_logs : ℕ
  pub logs : List LogLine
  pub seq : ℕ

-- `maxLogs <= 0` means 500.
unfoldable pub capacity : ℤ → ℕ
capacity (pos zero) = 500
capacity (pos (suc n)) = suc n
capacity (negsuc n) = 500

unfoldable pub new_ring : ℤ → Ring
unfolding capacity
new_ring max_logs = record { max_logs = capacity max_logs; logs = []; seq = 0 }

-- `logs[1:]` where the buffer is over its capacity.
unfoldable pub trim_oldest : ℕ → List LogLine → List LogLine
trim_oldest limit logs = if ltb limit (length logs) then drop 1 logs else logs

unfoldable pub push : Ring → Bytes → Bytes → Bytes → Ring
unfolding trim_oldest
push r time source text =
    let line : LogLine = record { id = suc r.seq; time = time; type = source; text = text } in
    record r { seq = suc r.seq; logs = trim_oldest r.max_logs (r.logs ++ line ∷ []) }

-- `l.ID > lastID`, where the client may send any int.
unfoldable pub is_after : ℤ → ℕ → Bool
is_after (pos n) id = ltb n id
is_after (negsuc n) id = true

-- `logs[start:]` for the first `start` whose line comes after `lastID`.
unfoldable pub from_first_after : ℤ → List LogLine → List LogLine
unfolding is_after
from_first_after last_id [] = []
from_first_after last_id (l ∷ ls) =
    let rest = from_first_after last_id ls in if is_after last_id l.id then l ∷ ls else rest

unfoldable pub since : Ring → ℤ → List LogLine × ℕ
unfolding from_first_after
since r last_id = (from_first_after last_id r.logs, r.seq)
