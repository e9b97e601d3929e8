-- ===== src/SmokeTest/Vless/Laws.antt =====
-- What a VLESS server reads of the request, and what is left of an answer.
use xray_vless_ws_go.Base.{
  ℕ, zero, suc, ◌+◌, ◌*◌, ◌/◌, ◌%◌, ◌^◌, ◌≤◌, ◌<◌, ◌≡◌, refl, sym, ap, ap₂, ◌∙◌, ◌↔◌, inl, inr,
  false, List, [], ◌∷◌, ◌++◌, append_assoc, append-nil, Option, none, some, Bytes, ltb, arith,
  Bool-cases, if◌then◌else◌, ◌==◌, length, length-append, drop, take, Result, ok, err,
}
use xray_vless_ws_go.Text.Decimal.{pos}
use xray_vless_ws_go.SmokeTest.Vless.{
  uint16, put_uint16, request_bytes, VlessError, with_ip, with_id, build_vless_request,
  strip_vless_response_header,
}

-- A request as the protocol lays it out: the version, the id of 16 bytes, the length of the addons and
-- the addons, the command, the port, the kind of address, and for IPv4 an address of 4 bytes.
pub record VlessRequest : Type 0 where
  pub version : ℕ
  pub id : Bytes
  pub command : ℕ
  pub port : ℕ
  pub address : Bytes
  pub payload : Bytes

abbrev read_target : ℕ → Bytes → Bytes → Option VlessRequest
read_target version id (command ∷ high ∷ low ∷ kind ∷ rest) =
    if kind == 1
    then some (record {
      version = version;
      id = id;
      command = command;
      port = high * 256 + low;
      address = take 4 rest;
      payload = drop 4 rest;
    })
    else none
read_target version id _ = none

abbrev read_addons : ℕ → Bytes → Bytes → Option VlessRequest
read_addons version id [] = none
read_addons version id (n ∷ rest) = read_target version id (drop n rest)

abbrev pub read_request : Bytes → Option VlessRequest
read_request [] = none
read_request (version ∷ rest) = read_addons version (take 16 rest) (drop 16 rest)

take-append {ℓ} : {A : Type ℓ} (n : ℕ) (xs ys : List A) → length xs ≡ n → take n (xs ++ ys) ≡ xs
take-append zero [] [] h = refl
take-append zero [] (y ∷ ys) h = refl
take-append zero (x ∷ xs) ys h = absurd (omega arith)
take-append (suc n) [] ys h = absurd (omega arith)
take-append (suc n) (x ∷ xs) ys h = ap (◌∷◌ x) (take-append n xs ys (omega arith))

drop-append {ℓ} : {A : Type ℓ} (n : ℕ) (xs ys : List A) → length xs ≡ n → drop n (xs ++ ys) ≡ ys
drop-append zero [] ys h = refl
drop-append zero (x ∷ xs) ys h = absurd (omega arith)
drop-append (suc n) [] ys h = absurd (omega arith)
drop-append (suc n) (x ∷ xs) ys h = drop-append n xs ys (omega arith)

read_request-bytes :
    (id ip payload : Bytes) (port : ℕ)
    → length id ≡ 16
    → length ip ≡ 4
    → port < 2 ^ 16
    → read_request (request_bytes id ip (pos port) ++ payload)
      ≡ some (record {
        version = 0;
        id = id;
        command = 1;
        port = port;
        address = ip;
        payload = payload;
      })
unfolding request_bytes put_uint16 uint16
read_request-bytes id ip payload port hid hip small =
    rw
      (
        append_assoc id tail payload,
        take-append 16 id (tail ++ payload) hid,
        drop-append 16 id (tail ++ payload) hid,
        append-nil ip,
        take-append 4 ip payload hip,
        drop-append 4 ip payload hip,
        whole,
      )
      refl
  where
    n : ℕ
    n = port % 2 ^ 16

    tail : Bytes
    tail = 0 ∷ 1 ∷ n / 256 ∷ n % 256 ∷ 1 ∷ (ip ++ [])

    whole : n / 256 * 256 + n % 256 ≡ port
    whole = omega (arith, small)

-- What is read of what was built, with the bytes of the id and of the address.
abbrev pub IsRequestOf : ℕ → Bytes → Bytes → Bytes → Result VlessError Bytes → Type 0
IsRequestOf port id ip payload (err e) = ⊥
IsRequestOf port id ip payload (ok bytes) =
    read_request (bytes ++ payload)
    ≡ some
        (record { version = 0; id = id; command = 1; port = port; address = ip; payload = payload })

-- For a UUID of 16 bytes, an IPv4 address of 4 bytes and a port below 2^16, a VLESS server reads the
-- request with the payload behind it as the TCP request for that address and port, by that id, and
-- with that payload.
pub build_vless_request-IsRequestOf :
    (parse_uuid : Bytes → Result Bytes Bytes) (parse_ipv4 : Bytes → Option Bytes)
    (uuid ip id address payload : Bytes) (port : ℕ)
    → parse_uuid uuid ≡ ok id
    → parse_ipv4 ip ≡ some address
    → length id ≡ 16
    → length address ≡ 4
    → port < 2 ^ 16
    → IsRequestOf port id address payload
        (build_vless_request parse_uuid parse_ipv4 uuid ip (pos port))
unfolding build_vless_request with_id with_ip
build_vless_request-IsRequestOf parse_uuid parse_ipv4 uuid ip id address payload port u a hid hip
      small =
    rw (u, a) (read_request-bytes id address payload port hid hip small)

-- An answer with a header: a version, and the addons behind their length.
abbrev pub HasHeader : Bytes → Bytes → Type 0
HasHeader answer body =
    (version : ℕ) × (addons : Bytes) × (answer ≡ version ∷ length addons ∷ (addons ++ body))

take-drop {ℓ} : {A : Type ℓ} (n : ℕ) (xs : List A) → take n xs ++ drop n xs ≡ xs
take-drop zero xs = refl
take-drop (suc n) [] = refl
take-drop (suc n) (x ∷ xs) = ap (◌∷◌ x) (take-drop n xs)

length-take {ℓ} : {A : Type ℓ} (n : ℕ) (xs : List A) → n ≤ length xs → length (take n xs) ≡ n
length-take zero xs h = refl
length-take (suc n) [] h = absurd (omega arith)
length-take (suc n) (x ∷ xs) h = omega (arith, length-take n xs (omega arith))

ok_same : {a b : Bytes} → ◌≡◌ {A = Result VlessError Bytes} (ok a) (ok b) → a ≡ b
ok_same h = cc

stripped-HasHeader :
    (answer body : Bytes) → strip_vless_response_header answer ≡ ok body → HasHeader answer body
unfolding strip_vless_response_header
stripped-HasHeader [] body h = cc
stripped-HasHeader (version ∷ []) body h = cc
stripped-HasHeader (version ∷ n ∷ rest) body h = elim (Bool-cases (ltb (length rest) n)) [
  | inl short ↦ absurd (refused (rw short at h))
  | inr long ↦ (
    version,
    take n rest,
    ap (λ (xs : Bytes). version ∷ xs)
        (ap₂ (λ (k : ℕ) (xs : Bytes). k ∷ xs) (sym (length-take n rest (ground (arith, long))))
          (sym (take-drop n rest) ∙ ap (λ (b : Bytes). take n rest ++ b) (ok_same (rw long at h)))),
  )
]
  where
    refused : {e : VlessError} {b : Bytes} → ◌≡◌ {A = Result VlessError Bytes} (err e) (ok b) → ⊥
    refused h = cc

header-stripped :
    (answer body : Bytes) → HasHeader answer body → strip_vless_response_header answer ≡ ok body
unfolding strip_vless_response_header
header-stripped answer body (version, addons, e) =
    let fits : ltb (length (addons ++ body)) (length addons) ≡ false =
      ground (arith, length-append addons body) in
    ap strip_vless_response_header e
    ∙ rw (fits) (ap ok (drop-append (length addons) addons body refl))

-- An answer is stripped exactly where it has a header with all of its addons, and what is left is
-- what stands behind them.
strip-HasHeader :
    (answer body : Bytes) → (strip_vless_response_header answer ≡ ok body) ↔ HasHeader answer body
strip-HasHeader answer body = (stripped-HasHeader answer body, header-stripped answer body)
