-- ===== src/Node/Configuration.antt =====
-- da-node/src/configuration.rs. The crates dotenvy, clap and config, which read the sources, are
-- arguments: what each of them returned.
use Prim.Native.String.{◌++◌ as ◌<>◌}
use mathlib.Core.Option.{get_or}
use da_concept.Base.{String, Bool, true, false, Option, none, some}
use da_concept.Base.Outcome.{Outcome, ok, ◌>>=◌, ◌>>◌}
use da_concept.Node.Manager.{P2pConfig}
use da_concept.Node.World.{DaNodeError}

pub record CliSettings : Type 0 where
  pub client_server_endpoint : Option String
  pub jwt_secret : Option String
  pub config : Option String

pub record DatabaseSettings : Type 0 where
  pub path : String
  pub name : String

pub record ServerSettings : Type 0 where
  pub database : DatabaseSettings
  pub client_server_endpoint : String
  pub jwt_secret : String
  pub p2p_config : P2pConfig

unfoldable pub connection_string : DatabaseSettings → String
connection_string settings = "sqlite://" <> (settings.path <> ("/" <> (settings.name <> ".sqlite")))

-- `Option::or`
abbrev pub or_else : Option String → Option String → Option String
or_else (some a) other = some a
or_else none other = other

module _
    -- Whether the file `.env` was read, the command line, and the variable CONF_FILE.
    (dotenv : Outcome DaNodeError (Unit {0})) (cli_args : CliSettings) (conf_file : Option String)
    -- What `config` makes of a file, which must be there or need not, and the environment.
    (build : String → Bool → Outcome DaNodeError ServerSettings) where
  unfoldable pub base_settings : Outcome DaNodeError ServerSettings
  base_settings =
      let config_path = or_else conf_file cli_args.config in
      build (get_or config_path "") (elim config_path [ none ↦ false | some path ↦ true ])

  unfoldable pub get_configuration : Outcome DaNodeError ServerSettings
  unfolding base_settings
  get_configuration = do
    dotenv
    base ← base_settings
    ok (record {
      database = base.database;
      client_server_endpoint = get_or cli_args.client_server_endpoint base.client_server_endpoint;
      jwt_secret = get_or cli_args.jwt_secret base.jwt_secret;
      p2p_config = base.p2p_config;
    })
