-- ===== src/Admin/Routes.antt =====
-- router/internal/app/server.go: the administration's part of `Routes`, for a path that `http.ServeMux` has
-- cleaned. The longest pattern wins, and a pattern that ends in `/` stands for all below it.
use aether_code.Base.{Option, none, some, Text, codes, ◌==◌, text_eq, if◌then◌else◌}
use aether_code.Text.{has_prefix}
use aether_code.Store.Provider.{Time}
use aether_code.Store.Cache.{Cache}
use aether_code.Store.Database.{Database}
use aether_code.Store.Mutations.{Store}
use aether_code.Relay.Auth.{AuthConfig}
use aether_code.Admin.{
  Endpoint, status, providers, provider_by_id, channels, channel_by_id, Codec, Request, Handled,
}
use aether_code.Admin.Providers.{admin_providers, admin_provider_by_id}
use aether_code.Admin.Channels.{admin_provider_channels, admin_provider_channel_by_id}
use aether_code.Admin.Status.{admin_status}

unfoldable pub endpoint_of : Text → Option Endpoint
endpoint_of path =
    if path == codes "/internal/status"
    then some status
    else if path == codes "/internal/providers"
    then some providers
    else if has_prefix path (codes "/internal/providers/")
    then some provider_by_id
    else if path == codes "/internal/provider-channels"
    then some channels
    else if has_prefix path (codes "/internal/provider-channels/")
    then some channel_by_id
    else none

module _ (codec : Codec) (getenv : Text → Text) (read_file : Text → Option Text) (d : Database)
    (s : Store d) (cfg : AuthConfig) (instance_id : Text) (now : Time) where
  unfoldable pub administer : Endpoint → Request → Cache → d.Db → Handled getenv read_file d s
  administer status r c db = admin_status codec getenv read_file d s cfg instance_id now r c db
  administer providers r c db = admin_providers codec getenv read_file d s cfg now r c db
  administer provider_by_id r c db = admin_provider_by_id codec getenv read_file d s cfg now r c db
  administer channels r c db = admin_provider_channels codec getenv read_file d s cfg now r c db
  administer channel_by_id r c db =
      admin_provider_channel_by_id codec getenv read_file d s cfg now r c db
