-- ===== src/Config/Ports/Laws.antt =====
-- What PORT is read as: the address stands before the last colon, and the port behind it.
use xray_vless_ws_go.Base.{
  ℕ, suc, ◌≤◌, ◌≡◌, ◌≢◌, refl, subst, true, false, List, [], ◌∷◌, ◌++◌, map, Option, none, some,
  arith, Bytes, codes, bytes_eq, bytes_eq_sound, bytes_eq_refl, inl, inr, Bool-cases, All,
  All-append, Result, ok, err, ◌>>=◌, ok-injective, All-cons_ok,
}
use xray_vless_ws_go.Text.Trim.{trim_space}
use xray_vless_ws_go.Text.Trim.Laws.{trim_space-graphic, IsGraphic}
use xray_vless_ws_go.Text.Search.{contains_byte}
use xray_vless_ws_go.Text.Split.{split, join}
use xray_vless_ws_go.Text.Split.Laws.{
  Lacks, split-join, All-join, join-ne-nil, split-append, join-split,
}
use xray_vless_ws_go.Text.Decimal.{ℤ, pos, negsuc, itoa, format_int, atoi}
use xray_vless_ws_go.Text.Decimal.RoundTrip.{
  IsInt64, itoa-IsDigit, atoi-itoa, atoi-format_int-negsuc, atoi-IsInt64,
}
use xray_vless_ws_go.Config.{InboundAddr, ConfigError}
use xray_vless_ws_go.Config.Ports.{
  split_last, with_port, from_parts, require_inbounds, parse_with_ip, parse_bare, parse_inbound,
  parse_inbounds, parse_ports, tunnel_target,
}

contains_byte-middle : (a : Bytes) (b : ℕ) (s : Bytes) → contains_byte (a ++ b ∷ s) b ≡ true
unfolding contains_byte
contains_byte-middle [] b s = ground arith
contains_byte-middle (c ∷ a) b s = ground (arith, contains_byte-middle a b s)

split_last-append : (ps : List Bytes) (last : Bytes) → split_last (ps ++ last ∷ []) ≡ (ps, last)
unfolding split_last
split_last-append [] last = refl
split_last-append (p ∷ []) last = refl
split_last-append (p ∷ q ∷ ps) last = rw (split_last-append (q ∷ ps) last)

-- An address as it is written in PORT.
abbrev pub show_inbound : InboundAddr → Bytes
show_inbound a = a.listen_ip ++ b':' ∷ format_int a.port

-- An address that the parser keeps as it is written: no spaces and no comma; colons are allowed.
pub record IsPlain (a : InboundAddr) : Type 0 where
  pub graphic : All IsGraphic a.listen_ip
  pub one_item : Lacks b',' a.listen_ip
  pub in_range : IsInt64 a.port

-- The bytes of a printed integer.
abbrev IsIntByte : ℕ → Type 0
IsIntByte c = (b'-' ≤ c) × (c ≤ b'9')

All-weaken {ℓ κ} :
    {P : ℕ → Type ℓ} {Q : ℕ → Type κ} (s : Bytes) → ((c : ℕ) → P c → Q c) → All P s → All Q s
All-weaken [] f h = tt
All-weaken (c ∷ s) f (hc, hs) = (f c hc, All-weaken s f hs)

format_int-IsIntByte : (z : ℤ) → All IsIntByte (format_int z)
unfolding format_int
format_int-IsIntByte (pos n) = All-weaken (itoa n) (λ c h. omega arith) (itoa-IsDigit n)
format_int-IsIntByte (negsuc n) =
    (omega arith, All-weaken (itoa (suc n)) (λ c h. omega arith) (itoa-IsDigit (suc n)))

atoi-format_int : (z : ℤ) → IsInt64 z → atoi (format_int z) ≡ some z
unfolding format_int
atoi-format_int (pos n) h = atoi-itoa n h
atoi-format_int (negsuc n) h = atoi-format_int-negsuc n h

from_parts-show :
    (item : Bytes) (a : InboundAddr)
    → IsInt64 a.port
    → from_parts item (split b':' a.listen_ip, format_int a.port) ≡ ok a
unfolding from_parts
from_parts-show item a h = rw (atoi-format_int a.port h, join-split b':' a.listen_ip, with_port)

parse_inbound-show : (a : InboundAddr) → IsInt64 a.port → parse_inbound (show_inbound a) ≡ ok a
unfolding parse_inbound parse_with_ip
parse_inbound-show a h =
    rw
      (
        contains_byte-middle a.listen_ip b':' (format_int a.port),
        split-append b':' a.listen_ip (format_int a.port)
            (All-weaken _ (λ c k. omega arith) (format_int-IsIntByte a.port)),
        split_last-append (split b':' a.listen_ip) (format_int a.port),
      )
      (from_parts-show (show_inbound a) a h)

show_inbound-IsGraphic : (a : InboundAddr) → IsPlain a → All IsGraphic (show_inbound a)
show_inbound-IsGraphic a h =
    All-append _ a.listen_ip _ h.graphic
      (omega arith, All-weaken _ (λ c k. omega arith) (format_int-IsIntByte a.port))

show_inbound-Lacks : (a : InboundAddr) → IsPlain a → Lacks b',' (show_inbound a)
show_inbound-Lacks a h =
    All-append _ a.listen_ip _ h.one_item
      (omega arith, All-weaken _ (λ c k. omega arith) (format_int-IsIntByte a.port))

append-colon : (s r : Bytes) → bytes_eq (s ++ b':' ∷ r) [] ≡ false
unfolding bytes_eq
append-colon [] r = refl
append-colon (c ∷ s) r = refl

parse_inbounds-show :
    (xs : List InboundAddr) → All IsPlain xs → parse_inbounds (map show_inbound xs) ≡ ok xs
unfolding parse_inbounds
parse_inbounds-show [] h = refl
parse_inbounds-show (a ∷ xs) (ha, hxs) = rw (
  trim_space-graphic (show_inbound a) (show_inbound-IsGraphic a ha),
  append-colon a.listen_ip (format_int a.port),
  parse_inbound-show a ha.in_range,
  parse_inbounds-show xs hxs,
)

All-map-show {ℓ} :
    (P : Bytes → Type ℓ) (xs : List InboundAddr)
    → ((a : InboundAddr) → IsPlain a → P (show_inbound a))
    → All IsPlain xs
    → All P (map show_inbound xs)
All-map-show P [] f h = tt
All-map-show P (a ∷ xs) f (ha, hxs) = (f a ha, All-map-show P xs f hxs)

-- PORT written as address:port, with commas between, is read back entry for entry, where the
-- addresses are printable ASCII without spaces and commas. An address may hold colons, as an IPv6
-- literal does, and a port may be any 64-bit integer.
pub parse_ports-join :
    (a : InboundAddr) (xs : List InboundAddr)
    → All IsPlain (a ∷ xs)
    → parse_ports (join (b',' ∷ []) (map show_inbound (a ∷ xs))) ≡ ok (a ∷ xs)
unfolding parse_ports
parse_ports-join a xs h = rw (
  trim_space-graphic _ (
      All-join IsGraphic (b',' ∷ []) _ (omega arith)
        (All-map-show _ (a ∷ xs) show_inbound-IsGraphic h)),
  join-ne-nil (b',' ∷ []) (show_inbound a) (map show_inbound xs)
      (append-colon a.listen_ip (format_int a.port)),
  split-join b',' (show_inbound a) (map show_inbound xs)
      (All-map-show _ (a ∷ xs) show_inbound-Lacks h),
  parse_inbounds-show (a ∷ xs) h,
)

with_port-IsInt64 :
    (ip s : Bytes) (e : ConfigError) (o : Option ℤ) (a : InboundAddr)
    → atoi s ≡ o
    → with_port ip e o ≡ ok a
    → IsInt64 a.port
unfolding with_port
with_port-IsInt64 ip s e none a q p = cc
with_port-IsInt64 ip s e (some z) a q p =
    subst (λ r. IsInt64 r.port) (ok-injective p) (atoi-IsInt64 s q)

parse_inbound-IsInt64 :
    (item : Bytes) (a : InboundAddr) → parse_inbound item ≡ ok a → IsInt64 a.port
unfolding parse_inbound parse_with_ip parse_bare from_parts
parse_inbound-IsInt64 item a p = elim (Bool-cases (contains_byte item b':')) [
  | inl e ↦ with_port-IsInt64 _ _ _ _ a refl (rw e at p)
  | inr e ↦ with_port-IsInt64 _ _ _ _ a refl (rw e at p)
]

parse_inbounds-IsInt64 :
    (parts : List Bytes) (xs : List InboundAddr)
    → parse_inbounds parts ≡ ok xs
    → All (λ a. IsInt64 a.port) xs
unfolding parse_inbounds
parse_inbounds-IsInt64 [] xs p = subst (All (λ a. IsInt64 a.port)) (ok-injective p) tt
parse_inbounds-IsInt64 (part ∷ parts) xs p = elim (Bool-cases (bytes_eq (trim_space part) [])) [
  | inl e ↦ parse_inbounds-IsInt64 parts xs (rw e at p)
  | inr e ↦
      All-cons_ok (λ a. IsInt64 a.port) (parse_inbound (trim_space part)) (parse_inbounds parts)
        (rw e at p) (parse_inbound-IsInt64 (trim_space part)) (parse_inbounds-IsInt64 parts)
]

require_inbounds-ok :
    (raw : Bytes) (out xs : List InboundAddr)
    → require_inbounds raw out ≡ ok xs
    → (out ≡ xs) × (xs ≢ [])
require_inbounds-ok raw [] xs p = cc
require_inbounds-ok raw (a ∷ out) xs p = (cc, λ q. ground arith)

-- A parsed PORT has an address, and every port is a 64-bit integer.
pub parse_ports-IsInt64 :
    (raw : Bytes) (xs : List InboundAddr)
    → parse_ports raw ≡ ok xs
    → (xs ≢ []) × All (λ a. IsInt64 a.port) xs
unfolding parse_ports
parse_ports-IsInt64 raw₀ xs p = elim (Bool-cases (bytes_eq (trim_space raw₀) [])) [
  | inl e ↦ cc (rw e at p)
  | inr e ↦ inner (parse_inbounds (split b',' (trim_space raw₀))) refl (rw e at p)
]
  where
    inner :
        (r : Result ConfigError (List InboundAddr))
        → parse_inbounds (split b',' (trim_space raw₀)) ≡ r
        → (r >>= require_inbounds (trim_space raw₀)) ≡ ok xs
        → (xs ≢ []) × All (λ a. IsInt64 a.port) xs
    inner (err e) q p = cc
    inner (ok out) q p =
        let (same, some_addr) = require_inbounds-ok (trim_space raw₀) out xs p in
        (some_addr, parse_inbounds-IsInt64 (split b',' (trim_space raw₀)) xs (cc))

-- The address that cloudflared is given: the first one, and never the wildcard.
pub tunnel_target_lem :
    (a : InboundAddr) (xs : List InboundAddr)
    → (ip : Bytes) × (tunnel_target (a ∷ xs) ≡ some (ip, a.port))
      × (ip ≢ codes "0.0.0.0")
      × ((a.listen_ip ≢ codes "0.0.0.0") → ip ≡ a.listen_ip)
unfolding tunnel_target
tunnel_target_lem a xs = elim (Bool-cases (bytes_eq a.listen_ip (codes "0.0.0.0"))) [
  | inl e ↦ (codes "127.0.0.1", rw e, cc, λ h. absurd (h (bytes_eq_sound _ _ e)))
  | inr e ↦ (a.listen_ip, rw e, (λ h. cc (rw h at e, bytes_eq_refl (codes "0.0.0.0"))), λ h. refl)
]
