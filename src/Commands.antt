-- ===== src/Commands.antt =====
-- cmd/cmd.go, the commands that write the configuration file, and utils/viper/config.go. Viper, the
-- encoder and the file system are parameters; a program that ends by `log.Fatalf` is an error. What
-- goes to the terminal is a list of lines, the first one first.
pub mod Outcomes
use eibc_client.Base.{
  ℕ, Bool, true, false, List, [], ◌∷◌, ◌++◌, Option, none, some, String, Result, ok, err, ◌>>=◌,
  if◌then◌else◌,
}
use eibc_client.Base.Int.{ℤ}
use eibc_client.Base.Text.{concat, format_ℤ}
use eibc_client.Config.Defaults.{Viper, Setting, whole}

-- The contents of the files, and the directories that are there
pub record Disk : Type 0 where
  pub files : String → Option String
  pub has_dir : String → Bool

-- What the commands ask of viper, the encoder and the file system: a write or a new directory gives
-- the error, if there is one, and the disk afterwards, and the encoder an error and the text.
pub record Tools : Type 1 where
  pub viper : Viper
  pub set : String → Setting → viper.State → viper.State
  pub read_in_config : Disk → viper.State → Option viper.State
  pub config_file_used : viper.State → String
  pub all_settings : viper.State → Option String × String
  pub keyring_dir : viper.State → Option String
  pub write_file : String → String → Disk → Option String × Disk
  pub write_config_as : String → viper.State → Disk → Option String × Disk
  pub mkdir_all : String → Disk → Option String × Disk
  pub atoi : String → Option ℤ

module _ (T : Tools) where
  pub record Shell : Type 0 where
    pub settings : T.viper.State
    pub disk : Disk
    pub printed : List String

  abbrev pub print : List String → Shell → Shell
  print lines s = record s { printed = s.printed ++ lines }

  -- what is said of an error, and nothing without one
  abbrev pub complaint : String → Option String → List String
  complaint prefix none = []
  complaint prefix (some e) = concat prefix e ∷ []

  -- `UpdateViperConfig`, which always returns `nil`
  unfoldable pub update_viper_config : String → Setting → String → Shell → Shell
  update_viper_config key value file s =
      let v = T.set key value s.settings in
      let (problem, content) = T.all_settings v in
      let (failure, disk) = T.write_file file content s.disk in
      record {
        settings = v;
        disk = disk;
        printed =
            s.printed
            ++ complaint "unable to marshal config to yaml: " problem
            ++ complaint "failed to update config file: " failure;
      }

  abbrev pub scaled : ℤ → String
  scaled n =
      concat (concat "fulfiller count successfully scaled to " (format_ℤ n))
        ", please restart the eibc process if it's running"

  -- the `scale` command from the reading of the configuration file on
  abbrev pub rescale : ℤ → Option T.viper.State → Shell → Shell
  rescale n none s = s
  rescale n (some v) s = print (scaled n ∷ []) (
      update_viper_config "fulfillers.scale" (whole n) (T.config_file_used v)
        (record s { settings = v }))

  -- The `scale` command, for its argument and what `homedir.Dir` answers. It ends without a word if
  -- the argument is no number or the configuration file cannot be read.
  unfoldable pub scale_command : String → Option String → Shell → Result Shell
  unfolding update_viper_config
  scale_command count home s = elim (T.atoi count) [
    | none ↦ ok s
    | some n ↦ elim home [
      | none ↦ err "failed to get home directory"
      | some dir ↦
          let v = T.viper.set_config_file (concat dir "/.eibc-client/config.yaml") s.settings in
          ok (rescale n (T.read_in_config s.disk v) (record s { settings = v }))
    ]
  ]

  -- the disk after a write, if there was no error
  abbrev pub written : String → Option String × Disk → Result Disk
  written prefix (none, d) = ok d
  written prefix (some e, d) = err (concat prefix e)

  -- the directory of the keys, which is made if it is not there
  abbrev pub ensure_dir : String → Disk → Result Disk
  ensure_dir dir d =
      if d.has_dir dir
      then ok d
      else written "failed to create fulfiller key directory: " (T.mkdir_all dir d)

  -- The `init` command, for `config.CfgFile`
  unfoldable pub init_command : String → Shell → Result Shell
  init_command cfg_file s = elim (T.keyring_dir s.settings) [
    | none ↦ err "failed to unmarshal config"
    | some dir ↦ do
      d ← ensure_dir dir s.disk
      d' ← written "failed to write config file: " (T.write_config_as cfg_file s.settings d)
      ok (
          print
            (concat "Config file created: " cfg_file
              ∷ ""
              ∷ "Edit the config file to set the correct values for your environment."
              ∷ [])
            (record s { disk = d' }))
  ]
