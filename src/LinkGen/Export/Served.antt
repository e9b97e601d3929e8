-- ===== src/LinkGen/Export/Served.antt =====
-- That the log server serves the links that were exported.
use xray_vless_ws_go.Base.{
  ◌≡◌, ◌≢◌, refl, ap, ◌∙◌, List, [], ◌∷◌, Option, none, some, arith, Bytes, codes, bytes_eq,
  bytes_eq_ne, All, Result, ok, err,
}
use xray_vless_ws_go.Text.Trim.{trim_space}
use xray_vless_ws_go.Text.Trim.Laws.{IsGraphic, trim_space-graphic}
use xray_vless_ws_go.Text.Split.{split, join}
use xray_vless_ws_go.Text.Split.Laws.{Lacks, split-join}
use xray_vless_ws_go.LinkGen.Export.{Disk, ExportMeta, ExportedInfo, write_json, export}
use xray_vless_ws_go.LogServer.Server.{
  Request, Server, World, Body, vless_info, subscription, plain,
}
use xray_vless_ws_go.LogServer.Server.Content.{
  links_in, read_with_fallback, read_config, handle_vless_info, handle_subscription,
}

-- What package os promises: a file that was written is read back, and no other changes.
pub record IsDisk {S : Type 0} (disk : Disk S) : Type 0 where
  pub written :
      (path content : Bytes) (s : S)
      → (disk.write_file path content s).0 ≡ none
      → disk.read_file (disk.write_file path content s).1 path ≡ some content
  pub others :
      (path other content : Bytes) (s : S)
      → path ≢ other
      → disk.read_file (disk.write_file path content s).1 other ≡ disk.read_file s other

-- A link as it is exported: not empty, and without white space.
abbrev pub IsLine : Bytes → Type 0
IsLine l = (l ≢ []) × All IsGraphic l

graphic-Lacks : (l : Bytes) → All IsGraphic l → Lacks b'\n' l
graphic-Lacks [] h = tt
graphic-Lacks (c ∷ l) (hc, h) = (omega (arith, hc), graphic-Lacks l h)

lines-Lack : (ls : List Bytes) → All IsLine ls → All (Lacks b'\n') ls
lines-Lack [] h = tt
lines-Lack (l ∷ ls) (hl, h) = (graphic-Lacks l hl.1, lines-Lack ls h)

links_in-lines : (ls : List Bytes) → All IsLine ls → links_in ls ≡ ls
unfolding links_in
links_in-lines [] h = refl
links_in-lines (l ∷ ls) (hl, h) =
    rw (trim_space-graphic l hl.1, bytes_eq_ne l [] hl.0, links_in-lines ls h) refl

-- The lines of the written file are the links again.
pub links_in-join :
    (ls : List Bytes) → All IsLine ls → links_in (split b'\n' (join (b'\n' ∷ []) ls)) ≡ ls
links_in-join [] h = unfold links_in split join trim_space bytes_eq in refl
links_in-join (l ∷ ls) h =
    ap links_in (split-join b'\n' l ls (lines-Lack (l ∷ ls) h)) ∙ links_in-lines (l ∷ ls) h

module _ {S : Type 0} (disk : Disk S) (marshal_indent : ExportedInfo → Result Bytes Bytes) where
  -- Whatever happens to the second file, the first one stays.
  write_json-others :
      (json_path other : Bytes) (r : Result Bytes Bytes) (s : S)
      → IsDisk disk
      → json_path ≢ other
      → disk.read_file (write_json disk marshal_indent json_path r s).1 other
        ≡ disk.read_file s other
  unfolding write_json
  write_json-others json_path other (err t) s laws ne = refl
  write_json-others json_path other (ok bytes) s laws ne = laws.others json_path other bytes s ne

  export-config :
      (links : List Bytes) (meta : ExportMeta) (config_path json_path : Bytes) (s : S)
      → IsDisk disk
      → json_path ≢ config_path
      → (disk.write_file config_path (join (b'\n' ∷ []) links) s).0 ≡ none
      → disk.read_file (export disk marshal_indent links meta config_path json_path s).1 config_path
        ≡ some (join (b'\n' ∷ []) links)
  unfolding export
  export-config links meta config_path json_path s laws ne h =
      write_json-others json_path config_path _ _ laws ne ∙ laws.written config_path _ s h

-- A server that finds a file under its path serves its lines.
read_config-found :
    (server : Server) (w : World) (path content : Bytes)
    → server.config_path ≡ path
    → path ≢ []
    → w.read_file path ≡ some content
    → read_config server w ≡ some content
unfolding read_config read_with_fallback
read_config-found server w path content e ne h =
    rw (read_config, read_with_fallback, e, bytes_eq_ne path [] ne, h) refl

-- The links of a response to /api/vless-info.
abbrev pub links_of_response : Body → Option (List Bytes)
links_of_response (vless_info v) = some v.links
links_of_response _ = none

-- The file that Export writes without an error is what the log server serves after it: the links of
-- /api/vless-info are those that were exported, in their order, and the raw subscription is the file.
-- The links have no white space, the files have different names, and the server looks at the disk
-- under the name of the first.
pub export-served :
    {S : Type 0} (disk : Disk S) (marshal_indent : ExportedInfo → Result Bytes Bytes)
    (unmarshal : Bytes → Option (Bytes → Option Bytes)) (links : List Bytes) (meta : ExportMeta)
    (config_path json_path : Bytes) (s : S) (server : Server) (w : World) (r : Request)
    → IsDisk disk
    → server.config_path ≡ config_path
    → config_path ≢ []
    → json_path ≢ config_path
    → All IsLine links
    → (disk.write_file config_path (join (b'\n' ∷ []) links) s).0 ≡ none
    → w.read_file config_path
      ≡ disk.read_file (export disk marshal_indent links meta config_path json_path s).1 config_path
    → r.raw ≡ codes "1"
    → (links_of_response (handle_vless_info unmarshal server w).body ≡ some links)
      × (handle_subscription server w r ≡ plain 200 (subscription (join (b'\n' ∷ []) links)))
unfolding handle_vless_info handle_subscription plain
export-served disk marshal_indent unmarshal links meta config_path json_path s server w r laws path
      named ne lines written sees raw =
    let found = read_config-found server w config_path (join (b'\n' ∷ []) links) path named (
      sees
      ∙ export-config disk marshal_indent links meta config_path json_path s laws ne written) in
    (
      rw (links_of_response, handle_vless_info, found) (ap some (links_in-join links lines)),
      rw (handle_subscription, found, raw) (unfold bytes_eq in refl),
    )
