-- ===== src/Main/Callbacks/Published.antt =====
-- What a client of the log server finds after a hostname was exported.
use xray_vless_ws_go.Base.{
  ◌≡◌, ◌≢◌, ap, [], ◌∷◌, Option, none, some, Bytes, codes, bytes_eq, bytes_eq_refl, arith, All,
  Result,
}
use xray_vless_ws_go.Text.Decimal.{ℤ}
use xray_vless_ws_go.Text.Split.{join}
use xray_vless_ws_go.Config.{Config}
use xray_vless_ws_go.LinkGen.Links.{build_links}
use xray_vless_ws_go.LinkGen.Export.{Disk, ExportedInfo}
use xray_vless_ws_go.LinkGen.Export.Served.{IsDisk, IsLine, links_of_response, export-served}
use xray_vless_ws_go.LogServer.Status.{StatusStore, set_hostname}
use xray_vless_ws_go.LogServer.Server.{Request, Server, World, subscription, plain}
use xray_vless_ws_go.LogServer.Server.Content.{handle_vless_info, handle_subscription}
use xray_vless_ws_go.Main.Callbacks.{config_path, json_path, meta_of, export_links}

different : json_path ≢ config_path
different e = ground (arith, bytes_eq_refl json_path, ap (λ p. bytes_eq json_path p) e)

-- After the tunnel's hostname was exported without an error on the first file, a log server that looks
-- at that disk and has the status that was left serves the links that the configuration gives for
-- the hostname, in order, as JSON and as the raw subscription, and shows the hostname. The disk reads
-- back what was written and leaves other files alone, and the links have no white space.
pub export_links-served :
    {S : Type 0} (disk : Disk S) (marshal_indent : ExportedInfo → Result Bytes Bytes)
    (unmarshal : Bytes → Option (Bytes → Option Bytes)) (cfg : Config) (host ip : Bytes) (start : ℤ)
    (status : StatusStore) (s : S) (server : Server) (w : World) (r : Request)
    → IsDisk disk
    → server.config_path ≡ config_path
    → server.status ≡ (export_links disk marshal_indent cfg host ip start status s).status
    → All IsLine (build_links cfg cfg.xray_uuid host)
    → (disk.write_file config_path (join (b'\n' ∷ []) (build_links cfg cfg.xray_uuid host)) s).0
      ≡ none
    → w.read_file config_path
      ≡ disk.read_file
          (export_links disk marshal_indent cfg host ip start status s).state
          config_path
    → r.raw ≡ codes "1"
    → (links_of_response (handle_vless_info unmarshal server w).body
        ≡ some (build_links cfg cfg.xray_uuid host))
      × (handle_subscription server w r
          ≡ plain 200 (subscription (join (b'\n' ∷ []) (build_links cfg cfg.xray_uuid host))))
      × (server.status.hostname ≡ host)
unfolding export_links set_hostname
export_links-served disk marshal_indent unmarshal cfg host ip start status s server w r laws path
      same lines written sees raw =
    let served =
      export-served disk marshal_indent unmarshal (build_links cfg cfg.xray_uuid host)
        (meta_of disk marshal_indent cfg host ip start) config_path json_path s server w r laws path
        (λ e. cc) different lines written sees raw in
    (served.0, served.1, ap (λ s. s.hostname) same)
