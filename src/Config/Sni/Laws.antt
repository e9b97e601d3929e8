-- ===== src/Config/Sni/Laws.antt =====
-- What a successful parse of FAKE_SNI returns, and which lists it reads back.
use xray_vless_ws_go.Base.{
  ℕ, suc, ◌+◌, ◌≡◌, ◌≢◌, refl, subst, false, List, [], ◌∷◌, ◌++◌, map, Option, none, some, arith,
  Bytes, codes, bytes_eq, bytes_eq_ne, bytes_eq_refl, if◌then◌else◌, inl, inr, Bool-cases, All,
  All-append, Result, ok, err, ◌>>=◌, ok-injective, All-cons_ok,
}
use xray_vless_ws_go.Text.Trim.{trim_space}
use xray_vless_ws_go.Text.Trim.Laws.{All-trim_space, trim_space-graphic, IsGraphic}
use xray_vless_ws_go.Text.Split.{split, join, cut}
use xray_vless_ws_go.Text.Split.Laws.{
  Lacks, split-Lacks, split-join, All-join, join-ne-nil, Sides, cut-Sides, cut-append,
}
use xray_vless_ws_go.Text.Decimal.{itoa}
use xray_vless_ws_go.Text.Decimal.RoundTrip.{IsDigit, itoa-IsDigit}
use xray_vless_ws_go.Config.{SniEntry, ConfigError}
use xray_vless_ws_go.Config.Sni.{
  default_remark, named_by, require_name, require_entries, parse_entry, parse_entries,
  parse_sni_list,
}

pub record IsEntry (e : SniEntry) : Type 0 where
  pub named : e.sni ≢ []
  pub labelled : e.remark ≢ []
  pub one_hash : Lacks b'#' e.sni
  pub one_item : Lacks b',' e.sni × Lacks b',' e.remark

Lacks-of_digits : (s : Bytes) → All IsDigit s → Lacks b',' s
Lacks-of_digits [] h = tt
Lacks-of_digits (c ∷ s) (hc, hs) = (omega arith, Lacks-of_digits s hs)

default_remark-Lacks : (idx : ℕ) → Lacks b',' (default_remark idx)
unfolding default_remark
default_remark-Lacks idx =
    All-append _ (codes "Tunnel ") (itoa (idx + 1)) (omega arith)
      (Lacks-of_digits (itoa (idx + 1)) (itoa-IsDigit (idx + 1)))

default_remark-ne-nil : (idx : ℕ) → default_remark idx ≢ []
unfolding default_remark
default_remark-ne-nil idx = cc

remark_or_default :
    (idx : ℕ) (r : Bytes)
    → Lacks b',' r
    → let remark = if bytes_eq r [] then default_remark idx else r in
      (remark ≢ []) × Lacks b',' remark
remark_or_default idx r h = elim (Bool-cases (bytes_eq r [])) [
  | inl e ↦ rw e (default_remark-ne-nil idx, default_remark-Lacks idx)
  | inr e ↦ rw e (λ q. ground (arith, bytes_eq_refl [], q), h)
]

All-left : (P : ℕ → Type 0) (xs ys : Bytes) → All P (xs ++ ys) → All P xs
All-left P [] ys h = tt
All-left P (x ∷ xs) ys (hx, h) = (hx, All-left P xs ys h)

All-right : (P : ℕ → Type 0) (xs ys : Bytes) → All P (xs ++ ys) → All P ys
All-right P [] ys h = h
All-right P (x ∷ xs) ys (hx, h) = All-right P xs ys h

module _ (idx : ℕ) (item : Bytes) (h : Lacks b',' item) where
  -- The name lacks `#`, the remark is not empty, and neither holds a comma.
  named_by-Lacks :
      (o : Option (Bytes × Bytes))
      → Sides b'#' item o
      → let (sni, remark) = named_by idx item o in
        (Lacks b'#' sni × Lacks b',' sni) × ((remark ≢ []) × Lacks b',' remark)
  unfolding named_by
  named_by-Lacks none l = ((l, h), (default_remark-ne-nil idx, default_remark-Lacks idx))
  named_by-Lacks (some (a, b)) (e, l) =
      let parts = subst (Lacks b',') e h in
      (
        (All-trim_space _ a l, All-trim_space _ a (All-left _ a (b'#' ∷ b) parts)),
        remark_or_default idx (trim_space b)
            (All-trim_space _ b (All-right _ a (b'#' ∷ b) parts).1),
      )

  require_name-IsEntry :
      (sni remark : Bytes) (e : SniEntry)
      → (Lacks b'#' sni × Lacks b',' sni) × ((remark ≢ []) × Lacks b',' remark)
      → require_name item (sni, remark) ≡ ok e
      → IsEntry e
  unfolding require_name bytes_eq
  require_name-IsEntry [] remark e q p = cc
  require_name-IsEntry (c ∷ sni) remark e q p =
      subst IsEntry (ok-injective p)
        (record { named = cc; labelled = q.1.0; one_hash = q.0.0; one_item = (q.0.1, q.1.1) })

  parse_entry-IsEntry : (e : SniEntry) → parse_entry idx item ≡ ok e → IsEntry e
  unfolding parse_entry
  parse_entry-IsEntry e p =
      require_name-IsEntry _ _ e (named_by-Lacks (cut b'#' item) (cut-Sides b'#' item)) p

parse_entries-IsEntry :
    (idx : ℕ) (parts : List Bytes) (es : List SniEntry)
    → All (Lacks b',') parts
    → parse_entries idx parts ≡ ok es
    → All IsEntry es
unfolding parse_entries
parse_entries-IsEntry idx [] es h p = subst (All IsEntry) (ok-injective p) tt
parse_entries-IsEntry idx (part ∷ parts) es (hp, hps) p =
    elim (Bool-cases (bytes_eq (trim_space part) [])) [
      | inl e ↦ parse_entries-IsEntry (suc idx) parts es hps (rw e at p)
      | inr e ↦
          All-cons_ok IsEntry (parse_entry idx (trim_space part)) (parse_entries (suc idx) parts)
            (rw e at p) (parse_entry-IsEntry idx (trim_space part) (All-trim_space _ part hp))
            (λ es'. parse_entries-IsEntry (suc idx) parts es' hps)
    ]

require_entries-ok :
    (raw : Bytes) (out es : List SniEntry)
    → require_entries raw out ≡ ok es
    → (out ≡ es) × (es ≢ [])
require_entries-ok raw [] es p = cc
require_entries-ok raw (e ∷ out) es p = (cc, λ q. ground arith)

-- A parsed FAKE_SNI has an entry, and every entry has a name without `#`, a remark, and no comma.
pub parse_sni_list-IsEntry :
    (raw : Bytes) (es : List SniEntry) → parse_sni_list raw ≡ ok es → (es ≢ []) × All IsEntry es
unfolding parse_sni_list
parse_sni_list-IsEntry raw₀ es p = elim (Bool-cases (bytes_eq (trim_space raw₀) [])) [
  | inl e ↦ cc (rw e at p)
  | inr e ↦ inner (parse_entries 0 (split b',' (trim_space raw₀))) refl (rw e at p)
]
  where
    inner :
        (r : Result ConfigError (List SniEntry))
        → parse_entries 0 (split b',' (trim_space raw₀)) ≡ r
        → (r >>= require_entries (trim_space raw₀)) ≡ ok es
        → (es ≢ []) × All IsEntry es
    inner (err e) q p = cc
    inner (ok out) q p =
        let (same, some_entry) = require_entries-ok (trim_space raw₀) out es p in
        (
          some_entry,
          parse_entries-IsEntry 0 (split b',' (trim_space raw₀)) es
              (split-Lacks b',' (trim_space raw₀)) (cc),
        )

-- An entry as it is written in FAKE_SNI.
abbrev pub show_entry : SniEntry → Bytes
show_entry e = e.sni ++ b'#' ∷ e.remark

-- An entry that the parser keeps as it is written: no spaces, no comma, no `#` in the name.
pub record IsPlain (e : SniEntry) : Type 0 where
  pub is_entry : IsEntry e
  pub graphic : All IsGraphic e.sni × All IsGraphic e.remark

parse_entry-show : (idx : ℕ) (e : SniEntry) → IsPlain e → parse_entry idx (show_entry e) ≡ ok e
unfolding parse_entry named_by require_name
parse_entry-show idx e h = rw (
  cut-append b'#' e.sni e.remark h.is_entry.one_hash,
  named_by,
  trim_space-graphic e.sni h.graphic.0,
  trim_space-graphic e.remark h.graphic.1,
  bytes_eq_ne e.remark [] h.is_entry.labelled,
  bytes_eq_ne e.sni [] h.is_entry.named,
)

show_entry-IsGraphic : (e : SniEntry) → IsPlain e → All IsGraphic (show_entry e)
show_entry-IsGraphic e h =
    All-append _ e.sni (b'#' ∷ e.remark) h.graphic.0 (omega arith, h.graphic.1)

show_entry-Lacks : (e : SniEntry) → IsPlain e → Lacks b',' (show_entry e)
show_entry-Lacks e h =
    All-append _ e.sni (b'#' ∷ e.remark) h.is_entry.one_item.0 (omega arith, h.is_entry.one_item.1)

append-hash : (s r : Bytes) → bytes_eq (s ++ b'#' ∷ r) [] ≡ false
unfolding bytes_eq
append-hash [] r = refl
append-hash (c ∷ s) r = refl

shown : List SniEntry → List Bytes
shown = map show_entry

parse_entries-shown :
    (idx : ℕ) (es : List SniEntry) → All IsPlain es → parse_entries idx (shown es) ≡ ok es
unfolding parse_entries shown
parse_entries-shown idx [] h = refl
parse_entries-shown idx (e ∷ es) (he, hes) = rw (
  trim_space-graphic (show_entry e) (show_entry-IsGraphic e he),
  append-hash e.sni e.remark,
  parse_entry-show idx e he,
  parse_entries-shown (suc idx) es hes,
)

All-map-show {ℓ} :
    (P : Bytes → Type ℓ) (es : List SniEntry)
    → ((e : SniEntry) → IsPlain e → P (show_entry e))
    → All IsPlain es
    → All P (shown es)
unfolding shown
All-map-show P [] f h = tt
All-map-show P (e ∷ es) f (he, hes) = (f e he, All-map-show P es f hes)

-- FAKE_SNI written as name#remark, with commas between, is read back entry for entry, where
-- neither name nor remark is empty or holds a comma or anything but printable ASCII without
-- spaces, and no name holds a `#`.
pub parse_sni_list-join :
    (e : SniEntry) (es : List SniEntry)
    → All IsPlain (e ∷ es)
    → parse_sni_list (join (b',' ∷ []) (map show_entry (e ∷ es))) ≡ ok (e ∷ es)
unfolding parse_sni_list shown
parse_sni_list-join e es h = rw (
  trim_space-graphic _ (
      All-join IsGraphic (b',' ∷ []) _ (omega arith)
        (All-map-show _ (e ∷ es) show_entry-IsGraphic h)),
  join-ne-nil (b',' ∷ []) (show_entry e) (map show_entry es) (append-hash e.sni e.remark),
  split-join b',' (show_entry e) (map show_entry es) (All-map-show _ (e ∷ es) show_entry-Lacks h),
  parse_entries-shown 0 (e ∷ es) h,
)
