-- ===== src/Server/Defaults.antt =====
-- `applyDefaults` and the ports that a server is reached at. `DeepCopy` makes the result a value of
-- its own, as every value of the model is.
use sftpgo_operator.Base.{
  String, Option, none, some, ℤ, pos, is_zero, is_positive, ◌==◌, if◌then◌else◌,
}
use sftpgo_operator.Api.Meta.{Kinds}
use sftpgo_operator.Api.ServerTypes.{SftpGoServer, SftpGoServerSpec, SftpConfig, HttpConfig}

abbrev pub server_finalizer : String
server_finalizer = "sftpgo.sftpgo.io/finalizer"

abbrev pub default_image : String
default_image = "docker.io/drakkan/sftpgo:latest"

abbrev one_replica : Option ℤ → Option ℤ
one_replica none = some (pos 1)
one_replica (some n) = some n

unfoldable pub apply_defaults : {K : Kinds} → SftpGoServer K → SftpGoServerSpec K
apply_defaults s =
    let spec = s.spec in
    record spec {
      image = if spec.image == "" then default_image else spec.image;
      replicas = one_replica spec.replicas;
      sftp_port = if is_zero spec.sftp_port then pos 2022 else spec.sftp_port;
      web_port = if is_zero spec.web_port then pos 8080 else spec.web_port;
      storage_backend = if spec.storage_backend == "" then "sqlite" else spec.storage_backend;
    }

-- The port of an optional section if it is set and positive, and another one if not.
abbrev pub sftp_port_or : Option SftpConfig → ℤ → ℤ
sftp_port_or none other = other
sftp_port_or (some c) other = if is_positive c.port then c.port else other

abbrev pub http_port_or : Option HttpConfig → ℤ → ℤ
http_port_or none other = other
http_port_or (some c) other = if is_positive c.port then c.port else other

unfoldable pub get_sftp_port : {K : Kinds} → SftpGoServerSpec K → ℤ
get_sftp_port spec = sftp_port_or spec.config.sftp spec.sftp_port

unfoldable pub get_web_port : {K : Kinds} → SftpGoServerSpec K → ℤ
get_web_port spec = http_port_or spec.config.http spec.web_port
