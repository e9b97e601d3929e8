-- ===== src/Tunnel/Hostname/Laws.antt =====
-- Which lines the parser takes a hostname from, and what that hostname is.
use xray_vless_ws_go.Base.{
  ℕ, ◌≡◌, ◌≢◌, refl, ap, sym, ◌∙◌, inl, inr, true, false, [], ◌∷◌, ◌++◌, append_assoc, Option, none,
  some, Bytes, bytes_eq, bytes_eq_ne, drop, length, arith, All, Bool-cases, Option-cases,
}
use xray_vless_ws_go.Text.Search.{has_prefix}
use xray_vless_ws_go.Tunnel.Hostname.{
  strip_ansi, is_label_byte, label_run, scheme, tunnel_domain, host_of, match_url, find_url,
  is_banner, HostnameParser, found_in, feed,
}

-- A tunnel's hostname: a label of letters, digits and dashes in front of the domain.
pub record IsTunnelHost (host : Bytes) : Type 0 where
  pub label : Bytes
  pub not_empty : label ≢ []
  pub label_bytes : All (λ c. is_label_byte c ≡ true) label
  pub form : host ≡ label ++ tunnel_domain

-- Where a hostname was found: behind "https://" in the line.
pub record FoundIn (line host : Bytes) : Type 0 where
  pub before : Bytes
  pub after : Bytes
  pub is_host : IsTunnelHost host
  pub place : line ≡ before ++ (scheme ++ (host ++ after))

has_prefix-append : (s p : Bytes) → has_prefix s p ≡ true → s ≡ p ++ drop (length p) s
unfolding has_prefix
has_prefix-append s [] h = refl
has_prefix-append [] (c ∷ p) h = cc
has_prefix-append (d ∷ s) (c ∷ p) h = ground (arith, has_prefix-append s p)

label_run-append : (s : Bytes) → s ≡ (label_run s).0 ++ (label_run s).1
unfolding label_run
label_run-append [] = refl
label_run-append (c ∷ s) = ground (arith, label_run-append s)

label_run-All : (s : Bytes) → All (λ c. is_label_byte c ≡ true) (label_run s).0
unfolding label_run
label_run-All [] = tt
label_run-All (c ∷ s) = elim (Bool-cases (is_label_byte c)) [
  | inl e ↦ rw e (e, label_run-All s)
  | inr e ↦ rw e tt
]

has_prefix_self : (p s : Bytes) → has_prefix (p ++ s) p ≡ true
unfolding has_prefix
has_prefix_self [] s = refl
has_prefix_self (c ∷ p) s = ground (arith, has_prefix_self p s)

drop-append : (p s : Bytes) → drop (length p) (p ++ s) ≡ s
drop-append [] s = refl
drop-append (c ∷ p) s = drop-append p s

-- A run of label bytes ends where a byte of another kind stands.
label_run-label :
    (label s : Bytes)
    → All (λ c. is_label_byte c ≡ true) label
    → label_run (label ++ (tunnel_domain ++ s)) ≡ (label, tunnel_domain ++ s)
unfolding label_run
label_run-label [] s h = refl
label_run-label (c ∷ label) s (hc, h) = rw (label_run-label label s h, hc)

host_of-some :
    (label rest host : Bytes)
    → host_of (label, rest) ≡ some host
    → (label ≢ []) × (has_prefix rest tunnel_domain ≡ true) × (host ≡ label ++ tunnel_domain)
unfolding host_of bytes_eq
host_of-some [] rest host h = cc
host_of-some (c ∷ label) rest host h = ground arith

match_url-FoundIn : (s host : Bytes) → match_url s ≡ some host → FoundIn s host
unfolding match_url
match_url-FoundIn s host h = elim (Bool-cases (has_prefix s scheme)) [
  | inr no_scheme ↦ cc (rw no_scheme at h)
  | inl with_scheme ↦
      let run = label_run (drop 8 s) in
      let found = host_of-some run.0 run.1 host (rw with_scheme at h) in
      record {
        before = [];
        after = drop (length tunnel_domain) run.1;
        is_host = record {
          label = run.0;
          not_empty = found.0;
          label_bytes = label_run-All (drop 8 s);
          form = found.2;
        };
        place =
            has_prefix-append s scheme with_scheme
            ∙ ap (◌++◌ scheme) (
                label_run-append (drop 8 s)
                ∙ ap (◌++◌ run.0) (has_prefix-append run.1 tunnel_domain found.1)
                ∙ sym (append_assoc run.0 tunnel_domain _)
                ∙ ap (λ t. t ++ drop (length tunnel_domain) run.1) (sym found.2));
      }
]

FoundIn-cons : (c : ℕ) (s host : Bytes) → FoundIn s host → FoundIn (c ∷ s) host
FoundIn-cons c s host f = record {
  before = c ∷ f.before;
  after = f.after;
  is_host = f.is_host;
  place = ap (◌∷◌ c) f.place;
}

find_url-FoundIn : (s host : Bytes) → find_url s ≡ some host → FoundIn s host
unfolding find_url
find_url-FoundIn [] host h = cc
find_url-FoundIn (c ∷ s) host h = elim (Option-cases (match_url (c ∷ s))) [
  | inl e ↦ FoundIn-cons c s host (find_url-FoundIn s host (rw (e, find_url) at h))
  | inr (x, e) ↦ match_url-FoundIn (c ∷ s) host (e ∙ (rw (e, find_url) at h))
]

found_in-some :
    (p q : HostnameParser) (line host : Bytes) (o : Option Bytes)
    → find_url line ≡ o
    → found_in p o ≡ (q, some host)
    → FoundIn line host × (q.saw_banner ≡ false)
unfolding found_in
found_in-some p q line host none e h = cc
found_in-some p q line host (some x) e h =
    (find_url-FoundIn line host (e ∙ ap some (ground arith)), ground arith)

-- A hostname is reported only behind a banner, never for the banner's own line, and it clears the
-- banner; it is a label in front of .trycloudflare.com that stands behind https:// in the line.
feed-FoundIn :
    (p q : HostnameParser) (raw host : Bytes)
    → feed p raw ≡ (q, some host)
    → (p.saw_banner ≡ true)
      × (q.saw_banner ≡ false)
      × (is_banner (strip_ansi raw) ≡ false)
      × FoundIn (strip_ansi raw) host
unfolding feed
feed-FoundIn p q raw host h = elim (Bool-cases (is_banner (strip_ansi raw))) [
  | inl b ↦ cc (rw b at h)
  | inr b ↦ elim (Bool-cases p.saw_banner) [
    | inr s ↦ absurd (ground arith)
    | inl s ↦
        let found =
          found_in-some p q (strip_ansi raw) host (find_url (strip_ansi raw)) refl (ground arith) in
        (s, found.1, b, found.0)
  ]
]

match_url_complete :
    (label post : Bytes)
    → label ≢ []
    → All (λ c. is_label_byte c ≡ true) label
    → match_url (scheme ++ (label ++ (tunnel_domain ++ post))) ≡ some (label ++ tunnel_domain)
unfolding match_url host_of
match_url_complete label post n h = rw (
  has_prefix_self scheme (label ++ (tunnel_domain ++ post)),
  label_run-label label post h,
  host_of,
  bytes_eq_ne label [] n,
  has_prefix_self tunnel_domain post,
)

match_url_skip : (c : ℕ) (s : Bytes) → c ≢ b'h' → match_url (c ∷ s) ≡ none
unfolding match_url has_prefix
match_url_skip c s h = ground arith

-- A line with a tunnel's URL in it has its hostname found, where no `h` stands before the URL.
pub find_url_complete :
    (before label post : Bytes)
    → All (λ c. c ≢ b'h') before
    → label ≢ []
    → All (λ c. is_label_byte c ≡ true) label
    → find_url (before ++ (scheme ++ (label ++ (tunnel_domain ++ post))))
      ≡ some (label ++ tunnel_domain)
unfolding find_url
find_url_complete [] label post b n h = rw (match_url_complete label post n h, find_url)
find_url_complete (c ∷ before) label post (hc, b) n h =
    rw (match_url_skip c _ hc, find_url) (find_url_complete before label post b n h)
