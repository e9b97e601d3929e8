-- ===== src/LinkGen/Links/Reader.antt =====
-- A reader of vless:// URLs, the independent description that `BuildLinks` is checked against.
use xray_vless_ws_go.Base.{
  ◌≡◌, refl, List, [], ◌∷◌, ◌++◌, map, Option, none, some, arith, Bytes, codes, drop, All,
  All-append,
}
use xray_vless_ws_go.Text.Split.{split, join, cut}
use xray_vless_ws_go.Text.Split.Laws.{Lacks, cut-append, split-join, All-join}
use xray_vless_ws_go.LinkGen.Quote.Decode.{decode}

-- The parts of the URL; a parameter is a name and a value.
pub record Link : Type 0 where
  pub user : Bytes
  pub address : Bytes
  pub port : Bytes
  pub params : List (Bytes × Bytes)
  pub label : Bytes

infixl 5 ◌>>=◌
abbrev ◌>>=◌ {ℓ κ} : {A : Type ℓ} {B : Type κ} → Option A → (A → Option B) → Option B
none >>= f = none
some a >>= f = f a

abbrev as_param : Bytes → Option (Bytes × Bytes) → Bytes × Bytes
as_param s none = (s, [])
as_param s (some p) = p

-- A parameter without `=` has the empty value.
unfoldable pub read_param : Bytes → Bytes × Bytes
read_param s = as_param s (cut b'=' s)

-- vless://user@address:port?params#label, with the label percent-encoded.
unfoldable pub read_link : Bytes → Option Link
unfolding read_param
read_link s = do
  (user, r₁) ← cut b'@' (drop 8 s)
  (address, r₂) ← cut b':' r₁
  (port, r₃) ← cut b'?' r₂
  (query, fragment) ← cut b'#' r₃
  label ← decode fragment
  some (record {
    user = user;
    address = address;
    port = port;
    params = map read_param (split b'&' query);
    label = label;
  })

-- A parameter as it is written.
abbrev pub show_param : Bytes × Bytes → Bytes
show_param (k, v) = k ++ b'=' ∷ v

-- A parameter that is read back: no delimiter stands in the wrong place.
abbrev pub IsParam : Bytes × Bytes → Type 0
IsParam (k, v) = Lacks b'=' k × Lacks b'&' (show_param (k, v)) × Lacks b'#' (show_param (k, v))

-- A name and a value without delimiters make a parameter.
pub plain-IsParam :
    (k v : Bytes)
    → Lacks b'=' k × Lacks b'&' k × Lacks b'#' k
    → Lacks b'&' v × Lacks b'#' v
    → IsParam (k, v)
plain-IsParam k v hk hv = (
  hk.0,
  All-append _ k (b'=' ∷ v) hk.1 (omega arith, hv.0),
  All-append _ k (b'=' ∷ v) hk.2 (omega arith, hv.1),
)

read_param-show : (p : Bytes × Bytes) → IsParam p → read_param (show_param p) ≡ p
unfolding read_param
read_param-show (k, v) h = rw (cut-append b'=' k v h.0)

map-read_param-show :
    (ps : List (Bytes × Bytes)) → All IsParam ps → map read_param (map show_param ps) ≡ ps
map-read_param-show [] h = refl
map-read_param-show (p ∷ ps) (hp, hps) = rw (read_param-show p hp, map-read_param-show ps hps)

All-show_param {ℓ} :
    (P : Bytes → Type ℓ) (ps : List (Bytes × Bytes))
    → ((p : Bytes × Bytes) → IsParam p → P (show_param p))
    → All IsParam ps
    → All P (map show_param ps)
All-show_param P [] f h = tt
All-show_param P (p ∷ ps) f (hp, hps) = (f p hp, All-show_param P ps f hps)

-- A URL laid out in full is read as its parts.
pub read_link-show :
    (user address port fragment label : Bytes) (p : Bytes × Bytes) (ps : List (Bytes × Bytes))
    → Lacks b'@' user
    → Lacks b':' address
    → Lacks b'?' port
    → All IsParam (p ∷ ps)
    → decode fragment ≡ some label
    → read_link (
        codes "vless://"
        ++ (user
            ++ b'@'
              ∷ (address
                  ++ b':'
                    ∷ (port
                        ++ b'?'
                          ∷ (join (b'&' ∷ []) (map show_param (p ∷ ps)) ++ b'#' ∷ fragment)))))
      ≡ some
          (record { user = user; address = address; port = port; params = p ∷ ps; label = label })
unfolding read_link
read_link-show user address port fragment label p ps hu ha hp hps hf = rw (
  cut-append b'@' user _ hu,
  cut-append b':' address _ ha,
  cut-append b'?' port _ hp,
  cut-append b'#' _ fragment (
      All-join _ (b'&' ∷ []) (map show_param (p ∷ ps)) (omega arith)
        (All-show_param _ (p ∷ ps) (λ q h. h.2) hps)),
  hf,
  split-join b'&' (show_param p) (map show_param ps) (All-show_param _ (p ∷ ps) (λ q h. h.1) hps),
  map-read_param-show (p ∷ ps) hps,
)
