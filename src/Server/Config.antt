-- ===== src/Server/Config.antt =====
-- `sftpgoMinimalConfig`: the text of sftpgo.json.
use sftpgo_operator.Base.{String, ◌<>◌, Bool, ℤ, pos, is_positive, if◌then◌else◌}
use sftpgo_operator.Base.Text.{decimal}
use sftpgo_operator.Api.Meta.{Kinds}
use sftpgo_operator.Api.ServerTypes.{SftpGoServerSpec}
use sftpgo_operator.Server.Defaults.{sftp_port_or}

-- The two formats, with their arguments put in.
unfoldable pub data_provider : String → Bool → String
data_provider driver create_default_admin =
    let base = "\"driver\": \"" <> (driver <> "\",\n    \"name\": \"/srv/sftpgo/sftpgo.db\"") in
    if create_default_admin then base <> ",\n    \"create_default_admin\": true" else base

unfoldable pub config_text : ℤ → String → String
unfolding decimal
config_text port provider =
    "{\n  \"sftpd\": {\n    \"bindings\": [{\"port\": "
    <> (decimal port
        <> (", \"address\": \"\", \"apply_proxy_config\": true}],\n    \"max_auth_tries\": 0,\n"
            <> ("    \"host_keys\": [],\n    \"keyboard_interactive_authentication\": true,\n"
                <> ("    \"password_authentication\": true\n  },\n  \"data_provider\": {\n    "
                    <> (provider
                        <> ("\n  },\n  \"httpd\": {\n    \"bindings\": [{\"port\": 8080, \"address\": \"\", "
                            <> "\"enable_web_admin\": true, \"enable_rest_api\": true}]\n  }\n}"))))))

unfoldable pub sftpgo_minimal_config : {K : Kinds} → SftpGoServerSpec K → Bool → String
unfolding config_text data_provider
sftpgo_minimal_config spec create_default_admin =
    let chosen = if is_positive spec.sftp_port then spec.sftp_port else pos 2022 in
    config_text (sftp_port_or spec.config.sftp chosen)
      (data_provider spec.storage_backend create_default_admin)
