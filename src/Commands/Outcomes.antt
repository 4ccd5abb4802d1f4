-- ===== src/Commands/Outcomes.antt =====
-- What the commands that write the configuration file leave.
use eibc_client.Base.{
  ◌≡◌, ◌⊎◌, refl, subst, ap, ◌∙◌, List, [], ◌∷◌, ◌++◌, Option, none, some, String, ok, ok-injective,
  Option-cases, inl, inr, >>=-eq-ok,
}
use eibc_client.Base.Int.{ℤ}
use eibc_client.Base.Text.{concat}
use eibc_client.Config.Defaults.{whole}
use eibc_client.Commands.{
  Tools, Shell, Disk, scale_command, rescale, scaled, init_command, ensure_dir, written, complaint,
  update_viper_config,
}

module _ (T : Tools) where
  -- a shell that said nothing and wrote nothing
  abbrev pub IsQuiet : Shell T → Shell T → Type 0
  IsQuiet s s' = (s'.printed ≡ s.printed) × (s'.disk ≡ s.disk)

  -- The last line says that the count is scaled to `n`, and the disk is as it is after the write.
  pub record IsScaled (n : ℤ) (s s' : Shell T) : Type 0 where
    pub file : String
    pub before : T.viper.State
    pub failure : Option String
    pub lines : List String
    pub wrote :
        T.write_file file (T.all_settings (T.set "fulfillers.scale" (whole n) before)).1 s.disk
        ≡ (failure, s'.disk)
    pub said :
        s'.printed
        ≡ s.printed
          ++ lines
          ++ complaint T "failed to update config file: " failure
          ++ scaled T n ∷ []

  rescale_says :
      (n : ℤ) (o : Option T.viper.State) (s : Shell T) (v0 : T.viper.State)
      → IsQuiet s (rescale T n o (record s { settings = v0 }))
        ⊎ IsScaled n s (rescale T n o (record s { settings = v0 }))
  unfolding update_viper_config
  rescale_says n none s v0 = inl (refl, refl)
  rescale_says n (some v) s v0 =
      let content = T.all_settings (T.set "fulfillers.scale" (whole n) v) in
      let wrote = T.write_file (T.config_file_used v) content.1 s.disk in
      inr (record {
        file = T.config_file_used v;
        before = v;
        failure = wrote.0;
        lines = complaint T "unable to marshal config to yaml: " content.0;
        wrote = refl;
        said = refl;
      })

  -- When the `scale` command ends by itself, it either said and wrote nothing, or it says last that
  -- the count is scaled, after a write of the settings with that count, whether or not this failed.
  pub scale_command_says :
      (count : String) (home : Option String) (s s' : Shell T)
      → scale_command T count home s ≡ ok s'
      → IsQuiet s s' ⊎ ((n : ℤ) × (T.atoi count ≡ some n) × IsScaled n s s')
  unfolding scale_command update_viper_config
  scale_command_says count home s s' e = elim (Option-cases (T.atoi count)) [
    | inl z ↦ inl (subst (IsQuiet s) (ok-injective (rw (z, scale_command) at e)) (refl, refl))
    | inr (n, z) ↦ elim (Option-cases home) [
      | inl y ↦ absurd (cc (rw (z, y, scale_command) at e))
      | inr (dir, y) ↦
          let v = T.viper.set_config_file (concat dir "/.eibc-client/config.yaml") s.settings in
          subst (λ r. IsQuiet s r ⊎ ((m : ℤ) × (T.atoi count ≡ some m) × IsScaled m s r))
            (ok-injective (rw (z, y, scale_command) at e))
            (elim (rescale_says n (T.read_in_config s.disk v) s v) [
              | inl q ↦ inl q
              | inr q ↦ inr (n, z, q)
            ])
    ]
  ]

  written-ok :
      (prefix : String) (w : Option String × Disk) (d : Disk)
      → written T prefix w ≡ ok d
      → w ≡ (none, d)
  written-ok prefix (none, d') d e = ap (λ x. (none, x)) (ok-injective e)
  written-ok prefix (some t, d') d e = absurd (cc)

  -- When the `init` command ends by itself, the settings are written to the configuration file
  -- without an error, after the directory of the keys was there or was made.
  pub init_command_writes :
      (cfg_file : String) (s s' : Shell T)
      → init_command T cfg_file s ≡ ok s'
      → (dir : String) × (d : Disk) × (T.keyring_dir s.settings ≡ some dir)
        × (ensure_dir T dir s.disk ≡ ok d)
        × (T.write_config_as cfg_file s.settings d ≡ (none, s'.disk))
  unfolding init_command
  init_command_writes cfg_file s s' e = elim (Option-cases (T.keyring_dir s.settings)) [
    | inl z ↦ absurd (cc (rw (z, init_command) at e))
    | inr (dir, z) ↦
        let (d, a, r) = >>=-eq-ok (ensure_dir T dir s.disk) _ (rw (z, init_command) at e) in
        let (d', b, r') =
          >>=-eq-ok
            (written T "failed to write config file: " (T.write_config_as cfg_file s.settings d)) _
            r in
        (
          dir,
          d,
          z,
          a,
          written-ok "failed to write config file: " (T.write_config_as cfg_file s.settings d)
              s'.disk (b ∙ ap (λ x. ok x.disk) (ok-injective r')),
        )
  ]
