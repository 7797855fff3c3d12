-- ===== src/Core/Config/CommandLine.antt =====
-- The flags of core/config/config.go: their table, `Flags` as `init` fills it, and the values that
-- `NewConfig` reads of them. urfave/cli's context is a parameter.
use blockless_avs_tools.Base.{
  ℕ, String, List, [], ◌∷◌, ◌++◌, Bool, true, false, ◌&&◌, ◌||◌, ◌==◌, string_eq, not,
  if◌then◌else◌, ◌≡◌, refl,
}
use blockless_avs_tools.Core.Config.{Flags}

-- `cli.BoolFlag` and `cli.StringFlag`.
pub data Value : Type 0 where
  boolean : Bool → Value
  text : String → Value

pub record Flag : Type 0 where
  pub name : String
  pub usage : String
  pub value : Value
  pub required : Bool
  pub has_been_set : Bool
  pub env_vars : List String

abbrev pub headless_flag : Flag
headless_flag = record {
  name = "headless";
  usage = "Run blockless node in headless mode";
  value = boolean true;
  required = true;
  has_been_set = true;
  env_vars = [];
}

abbrev pub dev_mode_flag : Flag
dev_mode_flag = record {
  name = "devmode";
  usage = "Run in development mode";
  value = boolean true;
  required = true;
  has_been_set = true;
  env_vars = [];
}

abbrev pub config_file_flag : Flag
config_file_flag = record {
  name = "config";
  usage = "Load configuration from `FILE`";
  value = text "config-files/operator.anvil.yaml";
  required = true;
  has_been_set = true;
  env_vars = [];
}

abbrev pub blockless_avs_deployment_file_flag : Flag
blockless_avs_deployment_file_flag = record {
  name = "blockless-avs-deployment";
  usage = "Load blockless avs contract addresses from `FILE`";
  value = text "";
  required = true;
  has_been_set = false;
  env_vars = [];
}

abbrev pub ecdsa_private_key_flag : Flag
ecdsa_private_key_flag = record {
  name = "ecdsa-private-key";
  usage = "Ethereum private key";
  value = text "";
  required = true;
  has_been_set = false;
  env_vars = "ECDSA_PRIVATE_KEY" ∷ [];
}

abbrev pub required_flags : List Flag
required_flags = config_file_flag ∷ blockless_avs_deployment_file_flag ∷ ecdsa_private_key_flag ∷ []

abbrev pub optional_flags : List Flag
optional_flags = []

abbrev pub flags : List Flag
flags = required_flags ++ optional_flags

-- `ctx.String` for a flag's name; the key is sliced, so it is read as bytes.
pub record Context : Type 0 where
  pub string : String → String
  pub bytes : String → List ℕ

unfoldable pub flags_of : Context → Flags
flags_of c = record {
  config = c.string config_file_flag.name;
  blockless_avs_deployment = c.string blockless_avs_deployment_file_flag.name;
  ecdsa_private_key = c.bytes ecdsa_private_key_flag.name;
}

abbrev is_declared : List Flag → String → Bool
is_declared [] name = false
is_declared (f ∷ declared) name = f.name == name || is_declared declared name

-- NewConfig reads no flag but those of `Flags`: a context that has nothing else gives the same
-- values.
pub flags_of-flags :
    (c : Context)
    → flags_of (record {
      string = λ n. if is_declared flags n then c.string n else "";
      bytes = λ n. if is_declared flags n then c.bytes n else [];
    })
      ≡ flags_of c
unfolding flags_of
flags_of-flags c = refl

-- The names that a user has to give on the command line or in the environment.
abbrev must_be_given : List Flag → List String
must_be_given [] = []
must_be_given (f ∷ fs) =
    let rest = must_be_given fs in if f.required && not f.has_been_set then f.name ∷ rest else rest

-- The configuration file has a default, the deployment and the key do not.
must_be_given-flags : must_be_given flags ≡ "blockless-avs-deployment" ∷ "ecdsa-private-key" ∷ []
must_be_given-flags = refl
