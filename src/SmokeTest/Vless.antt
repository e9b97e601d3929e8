-- ===== src/SmokeTest/Vless.antt =====
-- cmd/xraycore-smoketest/main.go: the request that is built by hand, and the header of the answer.
-- uuid.Parse and net.ParseIP with To4 are arguments.
pub mod Laws
use xray_vless_ws_go.Base.{
  ℕ, suc, ◌+◌, ◌-◌, ◌*◌, ◌/◌, ◌%◌, ◌^◌, Bool, List, [], ◌∷◌, ◌++◌, Option, none, some, Bytes,
  concat, ltb, if◌then◌else◌, length, drop, Result, ok, err,
}
use xray_vless_ws_go.Text.Decimal.{ℤ, pos, negsuc}
use xray_vless_ws_go.Text.Search.{contains}

-- `uint16(port)` of a Go int.
unfoldable pub uint16 : ℤ → ℕ
uint16 (pos n) = n % 2 ^ 16
uint16 (negsuc n) = 2 ^ 16 - 1 - n % 2 ^ 16

-- binary.BigEndian.PutUint16.
unfoldable pub put_uint16 : ℕ → Bytes
put_uint16 n = n / 256 ∷ n % 256 ∷ []

-- The bytes that are written one after the other.
unfoldable pub request_bytes : Bytes → Bytes → ℤ → Bytes
unfolding uint16 put_uint16
request_bytes id ip port =
    concat ((0 ∷ []) ∷ id ∷ (0 ∷ 1 ∷ []) ∷ put_uint16 (uint16 port) ∷ (1 ∷ []) ∷ ip ∷ [])

pub data VlessError : Type 0 where
  not_uuid : Bytes → VlessError
  not_ipv4 : Bytes → VlessError
  too_short : ℕ → VlessError
  shorter_than_declared : VlessError

module _ (parse_uuid : Bytes → Result Bytes Bytes) (parse_ipv4 : Bytes → Option Bytes) where
  unfoldable pub with_ip : Bytes → Bytes → ℤ → Option Bytes → Result VlessError Bytes
  unfolding request_bytes
  with_ip id ip port none = err (not_ipv4 ip)
  with_ip id ip port (some address) = ok (request_bytes id address port)

  unfoldable pub with_id : Bytes → ℤ → Result Bytes Bytes → Result VlessError Bytes
  unfolding with_ip
  with_id ip port (err e) = err (not_uuid e)
  with_id ip port (ok id) = with_ip id ip port (parse_ipv4 ip)

  -- `buildVLESSRequest`.
  unfoldable pub build_vless_request : Bytes → Bytes → ℤ → Result VlessError Bytes
  unfolding with_id
  build_vless_request uuid ip port = with_id ip port (parse_uuid uuid)

-- `stripVLESSResponseHeader`.
unfoldable pub strip_vless_response_header : Bytes → Result VlessError Bytes
strip_vless_response_header [] = err (too_short 0)
strip_vless_response_header (version ∷ []) = err (too_short 1)
strip_vless_response_header (version ∷ addon_len ∷ rest) =
    if ltb (length rest) addon_len then err shorter_than_declared else ok (drop addon_len rest)

-- The frames that are read behind the first one until the payload has come back whole, `none` where
-- a read fails first.
unfoldable pub await_payload : Bytes → Bytes → List Bytes → Option Bytes
unfolding contains
await_payload payload body [] = if contains body payload then some body else none
await_payload payload body (more ∷ frames) =
    let rest = await_payload payload (body ++ more) frames in
    if contains body payload then some body else rest
