-- ===== src/SmokeTest/Outbound.antt =====
-- cmd/xraycore-smoketest/main.go, `allowPrivateIPsForSmokeTest`, on the tree that json.Unmarshal makes.
use xray_vless_ws_go.Base.{
  ◌≡◌, refl, [], ◌∷◌, Option, none, some, Bytes, codes, bytes_eq, if◌then◌else◌,
}
use xray_vless_ws_go.Config.{Config}
use xray_vless_ws_go.Xray.Json.{
  Json, Items, Members, text, array, object, cons, end, member, map_of, slice_of, find, get,
}
use xray_vless_ws_go.Xray.BuildConfig.{xray_config}
use xray_vless_ws_go.Xray.BuildConfig.Reader.{read_inbounds}

-- `m[key] = value`.
unfoldable pub put : Bytes → Json → Members → Members
unfolding bytes_eq
put key v end = member key v end
put key v (member k x rest) =
    let rest' = put key v rest in if bytes_eq k key then member k v rest else member k x rest'

abbrev pub allow_rules : Json
allow_rules = slice_of (map_of ((codes "action", text (codes "allow")) ∷ []) ∷ [])

-- The changed tree, an error, or a panic of a type assertion.
pub data Patch : Type 0 where
  patched : Json → Patch
  no_object no_outbounds panicked : Patch

unfoldable pub patch_settings : Members → Items → Members → Option Json → Patch
unfolding put
patch_settings root others outbound (some (object settings)) = patched (
    object (
      put (codes "outbounds")
        (array (
          cons
            (object (
              put (codes "settings") (object (put (codes "finalRules") allow_rules settings))
                outbound))
            others))
        root))
patch_settings root others outbound _ = panicked

unfoldable pub patch_first : Members → Items → Json → Patch
unfolding patch_settings find
patch_first root others (object outbound) =
    patch_settings root others outbound (find (codes "settings") outbound)
patch_first root others _ = panicked

unfoldable pub patch_outbounds : Members → Option Json → Patch
unfolding patch_first
patch_outbounds root (some (array (cons first others))) = patch_first root others first
patch_outbounds root _ = no_outbounds

unfoldable pub allow_private_ips : Json → Patch
unfolding patch_outbounds find
allow_private_ips (object root) = patch_outbounds root (find (codes "outbounds") root)
allow_private_ips _ = no_object

-- The rules of the first outbound.
unfoldable pub first_rules : Json → Option Json
unfolding get
first_rules j = from (get (codes "outbounds") j)
  where
    from : Option Json → Option Json
    from (some (array (cons first others))) = settings_of (get (codes "settings") first)
      where
        settings_of : Option Json → Option Json
        settings_of none = none
        settings_of (some s) = get (codes "finalRules") s
    from _ = none

-- The tree of every configuration is patched, with no error and no panic: the first outbound gets the
-- rules, and xray-core reads the same inbounds as before.
xray_config-patched :
    (cfg : Config)
    → (j : Json) × (allow_private_ips (xray_config cfg) ≡ patched j)
      × (first_rules j ≡ some allow_rules)
      × (read_inbounds j ≡ read_inbounds (xray_config cfg))
unfolding allow_private_ips xray_config first_rules find get put read_inbounds
xray_config-patched cfg = (_, refl, refl, refl)
