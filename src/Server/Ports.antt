-- ===== src/Server/Ports.antt =====
-- The defaults, and the ports that the objects of one server name.
use sftpgo_operator.Base.{
  String, List, [], ◌∷◌, ◌==◌, if◌then◌else◌, ℕ, zero, suc, Bool, ◌≡◌, ◌≢◌, refl, Option, none,
  some, ℤ, pos, arith, eq_iff,
}
use sftpgo_operator.Api.Meta.{Kinds}
use sftpgo_operator.Api.ServerTypes.{SftpGoServer, SftpGoServerSpec, HttpConfig}
use sftpgo_operator.Server.Defaults.{apply_defaults, get_sftp_port, get_web_port, default_image}
use sftpgo_operator.Server.Config.{config_text, data_provider, sftpgo_minimal_config}
use sftpgo_operator.User.Reconcile.{api_port, client_for}
use sftpgo_operator.Sftpgo.Client.{service_url}
use sftpgo_operator.Kube.Objects.{ServicePort}
use sftpgo_operator.Server.Desired.{service_for_server}

-- The port of a service by its name.
abbrev pub port_named : String → List ServicePort → Option ℤ
port_named name [] = none
port_named name (p ∷ ports) = if p.name == name then some p.port else port_named name ports

module _ {K : Kinds} where
  -- A specification with nothing left to fill in.
  pub record IsComplete (spec : SftpGoServerSpec K) : Type 0 where
    pub image : spec.image ≢ ""
    pub replicas : spec.replicas ≢ none
    pub sftp_port : spec.sftp_port ≢ pos 0
    pub web_port : spec.web_port ≢ pos 0
    pub storage_backend : spec.storage_backend ≢ ""

  -- The defaults fill in every field that has one.
  pub apply_defaults-IsComplete : (s : SftpGoServer K) → IsComplete (apply_defaults s)
  unfolding apply_defaults
  apply_defaults-IsComplete s = record {
    image = ground (arith, eq_iff s.spec.image "", eq_iff default_image "");
    replicas = ground arith;
    sftp_port = ground arith;
    web_port = ground arith;
    storage_backend = ground (arith, eq_iff s.spec.storage_backend "", eq_iff "sqlite" "");
  }

  -- The defaults change nothing of a specification that has every field that they fill in.
  pub apply_defaults_of_complete :
      (s : SftpGoServer K) → IsComplete s.spec → apply_defaults s ≡ s.spec
  unfolding apply_defaults
  apply_defaults_of_complete s c =
      ground (arith, eq_iff s.spec.image "", eq_iff s.spec.storage_backend "")

  -- Where the SFTP port is not negative, the port in sftpgo.json is the one that the container
  -- and the service name.
  pub sftpgo_minimal_config-get_sftp_port :
      (s : SftpGoServer K) (admin : Bool) (n : ℕ)
      → s.spec.sftp_port ≡ pos n
      → sftpgo_minimal_config (apply_defaults s) admin
        ≡ config_text
            (get_sftp_port (apply_defaults s))
            (data_provider (apply_defaults s).storage_backend admin)
  unfolding sftpgo_minimal_config get_sftp_port apply_defaults
  sftpgo_minimal_config-get_sftp_port s admin zero h = rw h
  sftpgo_minimal_config-get_sftp_port s admin (suc n) h = rw h

  -- sftpgo.json is the same whatever web port is asked for, at the server or in its HTTP section.
  pub sftpgo_minimal_config-ignores_web_port :
      (s : SftpGoServer K) (admin : Bool) (port : ℤ) (http : Option HttpConfig)
      → let other : SftpGoServer K = record s {
        spec = record s.spec { web_port = port; config = record s.spec.config { http = http } };
      } in
        sftpgo_minimal_config (apply_defaults other) admin
        ≡ sftpgo_minimal_config (apply_defaults s) admin
  unfolding sftpgo_minimal_config apply_defaults
  sftpgo_minimal_config-ignores_web_port s admin port http = refl

  -- The user controller calls the API at the port of the service, where the web port is not
  -- negative and the server has no HTTP section.
  pub api_port-eq-get_web_port :
      (s : SftpGoServer K) (n : ℕ)
      → s.spec.web_port ≡ pos n
      → s.spec.config.http ≡ none
      → api_port s ≡ get_web_port (apply_defaults s)
  unfolding api_port get_web_port apply_defaults
  api_port-eq-get_web_port s zero h k = rw (h, k)
  api_port-eq-get_web_port s (suc n) h k = rw (h, k)

  -- With a positive port in the HTTP section and a positive web port, the port "web" of the Service
  -- is that of the HTTP section, and the user controller calls the web port of the server.
  pub client_for-service_for_server :
      (s : SftpGoServer K) (c : HttpConfig) (m n : ℕ) (namespace username password : String)
      → s.spec.config.http ≡ some c
      → c.port ≡ pos (suc m)
      → s.spec.web_port ≡ pos (suc n)
      → (port_named "web" (service_for_server s).spec.ports ≡ some (pos (suc m)))
        × ((client_for s namespace username password).base_url
            ≡ service_url s.meta.name namespace (pos (suc n)))
  unfolding client_for service_for_server get_web_port apply_defaults
  client_for-service_for_server s c m n namespace username password h p w =
      (ground arith, ground arith)
