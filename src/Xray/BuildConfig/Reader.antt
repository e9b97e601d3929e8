-- ===== src/Xray/BuildConfig/Reader.antt =====
-- What xray-core reads from the tree, the independent description of `BuildConfig`: an inbound's
-- address, its first client, and of the transport's own settings the path and the mode.
use xray_vless_ws_go.Base.{List, [], ◌∷◌, ◌++◌, Option, none, some, Bytes, codes}
use xray_vless_ws_go.Text.Decimal.{ℤ}
use xray_vless_ws_go.Xray.Json.{Json, get, as_text, as_number, as_list}

infixl 5 ◌>>=◌
abbrev ◌>>=◌ {ℓ κ} : {A : Type ℓ} {B : Type κ} → Option A → (A → Option B) → Option B
none >>= f = none
some a >>= f = f a

pub record Inbound : Type 0 where
  pub listen : Bytes
  pub port : ℤ
  pub protocol : Bytes
  pub client : Bytes
  pub network : Bytes
  pub path : Bytes
  pub mode : Option Bytes

abbrev first : List Json → Option Json
first [] = none
first (x ∷ xs) = some x

-- The settings of a transport stand under its name with `Settings` behind it.
unfoldable pub read_inbound : Json → Option Inbound
unfolding get
read_inbound j = do
  listen ← get (codes "listen") j >>= as_text
  port ← get (codes "port") j >>= as_number
  protocol ← get (codes "protocol") j >>= as_text
  settings ← get (codes "settings") j
  client ← get (codes "clients") settings >>= as_list >>= first >>= get (codes "id") >>= as_text
  stream ← get (codes "streamSettings") j
  network ← get (codes "network") stream >>= as_text
  transport ← get (network ++ codes "Settings") stream
  path ← get (codes "path") transport >>= as_text
  some (record {
    listen = listen;
    port = port;
    protocol = protocol;
    client = client;
    network = network;
    path = path;
    mode = get (codes "mode") transport >>= as_text;
  })

unfoldable pub read_all : List Json → Option (List Inbound)
unfolding read_inbound
read_all [] = some []
read_all (j ∷ js) = do x ← read_inbound j; xs ← read_all js; some (x ∷ xs)

unfoldable pub read_inbounds : Json → Option (List Inbound)
unfolding read_all get
read_inbounds j = get (codes "inbounds") j >>= as_list >>= read_all
