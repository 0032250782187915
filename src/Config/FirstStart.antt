-- ===== src/Config/FirstStart.antt =====
-- The first start without a configuration file.
use mathlib.Core.Path.{subst}
use life_stream_go_mqtt_brok.Prelude.{
  Bool, Option, List, ◌≡◌, true, false, ℕ, none, some, refl, [], ◌∙◌, sym, ap,
}
use life_stream_go_mqtt_brok.Config.{
  ConfigServices, ConfigState, Config, read_config, parsed, read_as, file_created, invalid_json,
  Access, OpenFlags, read_only, config_flags, default_written,
}

-- What the package os promises of the file, and encoding/json of an empty text. `mode` is the access
-- with which a file was opened. A file that is created is empty; a write to a file that is open for
-- reading only is refused; and a close changes nothing.
pub record ConfigLaws (cs : ConfigServices) : Type 1 where
  pub exists : cs.Disk → Bool
  pub mode : cs.File → Access
  pub missing : (d : cs.Disk) → exists d ≡ false → cs.read_file d ≡ none
  pub opened_mode :
      (flags : OpenFlags) (d : cs.Disk) (f : cs.File)
      → (cs.open_file flags d).0 ≡ some f
      → mode f ≡ flags.access
  pub created_empty :
      (flags : OpenFlags) (d : cs.Disk) (f : cs.File)
      → flags.create ≡ true
      → exists d ≡ false
      → (cs.open_file flags d).0 ≡ some f
      → cs.read_file (cs.open_file flags d).1 ≡ some []
  pub write_refused :
      (f : cs.File) (text : List ℕ) (d : cs.Disk)
      → mode f ≡ read_only
      → cs.read_file (cs.write_file (some f) text d) ≡ cs.read_file d
  pub close_keeps :
      (f : cs.File) (d : cs.Disk) → cs.read_file (cs.close_file (some f) d) ≡ cs.read_file d
  pub empty_refused : (c : Config) → (cs.unmarshal [] c).0 ≡ false

module _ (cs : ConfigServices) (l : ConfigLaws cs) where
  open l use {
    exists, mode, missing, opened_mode, created_empty, write_refused, close_keeps, empty_refused,
  }

  default_written-empty :
      (c : Config) (d : cs.Disk) (f : cs.File)
      → exists d ≡ false
      → (cs.open_file (config_flags cs) d).0 ≡ some f
      → cs.read_file (default_written cs c (cs.open_file (config_flags cs) d)) ≡ some []
  default_written-empty c d f new opens =
      let d1 = (cs.open_file (config_flags cs) d).1 in
      ap
        (λ (o : Option cs.File). cs.read_file (cs.close_file o (cs.write_file o (cs.marshal c) d1)))
        opens
      ∙ close_keeps f (cs.write_file (some f) (cs.marshal c) d1)
      ∙ write_refused f (cs.marshal c) d1 (opened_mode (config_flags cs) d f opens)
      ∙ created_empty (config_flags cs) d f refl new opens

  refused :
      (r : Bool × Config) (s : ConfigState) (d : cs.Disk)
      → r.0 ≡ false
      → (parsed cs r s d).failure ≡ some invalid_json
  refused (false, c) s d e = refl
  refused (true, c) s d e = absurd (cc e)

  -- A start for which the configuration file does not exist, and can be created, reports that it was
  -- created; the file is then empty, since what is written to it goes to a file that is open for
  -- reading only; and the next start reports that it contains no valid JSON.
  pub read_config-created :
      (s : ConfigState) (d : cs.Disk) (f : cs.File)
      → exists d ≡ false
      → (cs.open_file (config_flags cs) d).0 ≡ some f
      → (let a = read_config cs s d in
          (a.failure ≡ some file_created)
          × (cs.read_file a.disk ≡ some [])
          × ((read_config cs a.state a.disk).failure ≡ some invalid_json))
  unfolding read_config
  read_config-created s d f new opens =
      let d' = default_written cs s.config (cs.open_file (config_flags cs) d) in
      let empty = default_written-empty s.config d f new opens in
      subst
        (λ (o : Option (List ℕ)).
          (let a = read_as cs o s d in
            (a.failure ≡ some file_created)
            × (cs.read_file a.disk ≡ some [])
            × ((read_as cs (cs.read_file a.disk) a.state a.disk).failure ≡ some invalid_json)))
        (sym (missing d new))
        (
          refl,
          empty,
          ap (λ (o : Option (List ℕ)). (read_as cs o s d').failure) empty
              ∙ refused (cs.unmarshal [] s.config) s d' (empty_refused s.config),
        )
