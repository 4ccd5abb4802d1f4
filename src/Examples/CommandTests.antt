-- ===== src/Examples/CommandTests.antt =====
-- The commands that write the configuration file, with a viper that keeps its settings in a map.
use eibc_client.Base.{
  ◌≡◌, ◌⊎◌, refl, true, false, [], ◌∷◌, Option, none, some, String, ok, err, panic, str_eq,
  if◌then◌else◌,
}
use eibc_client.Base.Int.{ℤ, pos}
use eibc_client.Base.Text.{parse_int}
use eibc_client.Commands.{Tools, Shell, scale_command, scaled, init_command}
use eibc_client.Commands.Outcomes.{IsQuiet, IsScaled, scale_command_says}
use eibc_client.Config.Defaults.{Viper, Setting, init_config, whole}

-- The settings are a function of the key, and the name of the file is kept beside them.
abbrev defaults_first : Viper
defaults_first = record {
  State = (String → Option Setting) × String;
  set_default = λ key x v. ((λ k. if str_eq k key then some x else v.0 k), v.1);
  set_config_type = λ t v. v;
  set_config_file = λ f v. (v.0, f);
  add_config_path = λ f v. v;
  set_config_name = λ f v. v;
}

abbrev unset : (String → Option Setting) × String
unset = ((λ k. none), "")

abbrev initialised : String × ((String → Option Setting) × String)
initialised = elim (init_config defaults_first (some "/home/op") "" unset) [
  | ok r ↦ r
  | err t ↦ ("", unset)
  | panic ↦ ("", unset)
]

initialises : init_config defaults_first (some "/home/op") "" unset ≡ ok initialised
unfolding init_config
initialises = refl

-- A disk that cannot be written to
abbrev tools : Tools
tools = record {
  viper = defaults_first;
  set = λ key x v. ((λ k. if str_eq k key then some x else v.0 k), v.1);
  read_in_config = λ d v. some v;
  config_file_used = λ v. v.1;
  all_settings = λ v. (none, "settings");
  keyring_dir = λ v. some "keys";
  write_file = λ file content d. (some "read-only", d);
  write_config_as = λ file v d.
      (none, record d { files = λ f. if str_eq f file then some "settings" else d.files f });
  mkdir_all = λ dir d. (none, record d { has_dir = λ x. true });
  atoi = parse_int;
}

abbrev shell : Shell tools
shell = record {
  settings = unset;
  disk = record { files = λ f. none; has_dir = λ d. false };
  printed = [];
}

abbrev rescaled : Shell tools
rescaled = record {
  settings = (
    (λ k. if str_eq k "fulfillers.scale" then some (whole (pos 5)) else none),
    "/home/op/.eibc-client/config.yaml",
  );
  disk = shell.disk;
  printed = "failed to update config file: read-only" ∷ scaled tools (pos 5) ∷ [];
}

rescales : scale_command tools "5" (some "/home/op") shell ≡ ok rescaled
unfolding scale_command parse_int
rescales = refl

scale_command_says_example :
    IsQuiet tools shell rescaled
    ⊎ ((n : ℤ) × (parse_int "5" ≡ some n) × IsScaled tools n shell rescaled)
scale_command_says_example = scale_command_says tools "5" (some "/home/op") shell rescaled rescales

abbrev fresh : Shell tools
fresh = record {
  settings = unset;
  disk = record {
    files = λ f. if str_eq f "config.yaml" then some "settings" else none;
    has_dir = λ d. true;
  };
  printed =
      "Config file created: config.yaml" ∷ ""
      ∷ "Edit the config file to set the correct values for your environment." ∷ [];
}

creates : init_command tools "config.yaml" shell ≡ ok fresh
unfolding init_command
creates = refl
