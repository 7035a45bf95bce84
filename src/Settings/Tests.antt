-- ===== src/Settings/Tests.antt =====
-- The theorem on the settings file at the default settings.
use mesui.Prelude.{ℕ, ◌≡◌, refl, [], ◌∷◌, done, ok}
use mesui.Envelope.{Codec}
use mesui.Settings.{Settings, default_settings, written, save}

abbrev defaults : Settings ℕ
defaults = default_settings 20

-- A codec of one text.
abbrev json : Codec (Settings ℕ)
json = record {
  into_writer = λ s. done (123 ∷ 125 ∷ []);
  from_reader = λ b. done (default_settings 20);
}

saved : (save json defaults (47 ∷ []) (done tt) written []).1 ≡ ok tt
unfolding save
saved = refl
