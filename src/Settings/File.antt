-- ===== src/Settings/File.antt =====
-- settings.rs, `save` and `load_or_default`: what is saved is loaded.
use mesui.Prelude.{
  ◌≡◌, refl, ◌∙◌, true, Bytes, bytes_eq_refl, arith, ok, Outcome, done, failed, some,
}
use mesui.Prelude.Map.{get, insert, get-insert}
use mesui.Envelope.{Codec}
use mesui.Settings.{Settings, Disk, Write, written, torn, file, save, load_or_default}

module _ {F : Type 0} (json : Codec (Settings F)) where
  -- What a successful call of `save` left is loaded again, if the parser reads what the printer
  -- writes of these settings.
  pub load_or_default-save :
      (s : Settings F) (twenty : F) (dir : Bytes) (made : Outcome (Unit {0})) (write : Write)
      (disk : Disk)
      → ((b : Bytes) → json.into_writer s ≡ done b → json.from_reader b ≡ done s)
      → (save json s dir made write disk).1 ≡ ok tt
      → load_or_default json twenty dir true (save json s dir made write disk).0 ≡ s
  unfolding save load_or_default
  load_or_default-save s twenty dir made write disk reads h =
      go made write (json.into_writer s) refl h
    where
      loaded :
          (b : Bytes)
          → json.into_writer s ≡ done b
          → load_or_default json twenty dir true (insert (file dir) b disk) ≡ s
      loaded b e =
          let found : get (file dir) (insert (file dir) b disk) ≡ some b =
            get-insert (file dir) (file dir) b disk ∙ rw (bytes_eq_refl (file dir)) refl in
          rw (found, reads b e, load_or_default) refl

      go :
          (m : Outcome (Unit {0})) (w : Write) (o : Outcome Bytes)
          → json.into_writer s ≡ o
          → (save json s dir m w disk).1 ≡ ok tt
          → load_or_default json twenty dir true (save json s dir m w disk).0 ≡ s
      go (failed e) w o p h = cc
      go (done u) w (failed e) p h = ground (arith, rw (p, save) at h)
      go (done u) (torn left e) (done b) p h = ground (arith, rw (p, save) at h)
      go (done u) written (done b) p h = rw (p, save) (loaded b p)
