-- ===== src/Settings.antt =====
-- crates/core/src/settings.rs: the settings, their defaults, and their file. `serde_json` is an
-- argument, and so are the floating-point numbers `F` of the thresholds, with the number 20.
pub mod File
mod Tests
use Prim.Native.String.{String}
use mesui.Prelude.{
  ℕ, Bool, true, false, Option, none, some, List, [], ◌∷◌, ◌++◌, Bytes, codes, Result, ok, err, io,
  config, Outcome, done, failed,
}
use mesui.Prelude.Map.{Map, get, insert}
use mesui.Envelope.{Codec}
use mesui.Adaptive.{Thresholds}

pub data ThemeMode : Type 0 where
  follow_system light dark : ThemeMode

pub data ChannelKind : Type 0 where
  bluetooth lan direct relay tor : ChannelKind

abbrev pub default_priority : List ChannelKind
default_priority = bluetooth ∷ lan ∷ direct ∷ relay ∷ tor ∷ []

pub data ProxyMode : Type 0 where
  no_proxy http socks5 : ProxyMode

pub record ProxyCfg : Type 0 where
  pub mode : ProxyMode
  pub host : Bytes
  pub port : ℕ
  pub bypass : List ChannelKind

abbrev pub default_proxy : ProxyCfg
default_proxy = record { mode = no_proxy; host = []; port = 0; bypass = [] }

pub record NodeServiceCfg : Type 0 where
  pub enabled : Bool
  pub scope : ℕ
  pub only_when_charging : Bool
  pub only_on_unmetered : Bool
  pub data_cap_mb : Option ℕ

abbrev pub default_node_service : NodeServiceCfg
default_node_service = record {
  enabled = true;
  scope = 1;
  only_when_charging = true;
  only_on_unmetered = true;
  data_cap_mb = some 200;
}

pub record AppearanceCfg : Type 0 where
  pub theme : ThemeMode
  pub dynamic_color : Bool
  pub reduced_motion : Bool

abbrev pub default_appearance : AppearanceCfg
default_appearance = record { theme = follow_system; dynamic_color = true; reduced_motion = false }

pub record PrivacyCfg : Type 0 where
  pub show_receipts : Bool
  pub show_typing : Bool
  pub link_preview : Bool
  pub screenshot_block : Bool

abbrev pub default_privacy : PrivacyCfg
default_privacy = record {
  show_receipts = true;
  show_typing = true;
  link_preview = false;
  screenshot_block = true;
}

pub record AdaptiveCfg (F : Type 0) : Type 0 where
  pub enabled : Bool
  pub thresholds : Thresholds F

pub record Settings (F : Type 0) : Type 0 where
  pub appearance : AppearanceCfg
  pub channel_priority : List ChannelKind
  pub proxy : ProxyCfg
  pub node_service : NodeServiceCfg
  pub adaptive : AdaptiveCfg F
  pub privacy : PrivacyCfg
  pub bluetooth_switch_seconds : ℕ
  pub strict_crypto : Bool

-- `twenty` is 20.0.
abbrev pub default_settings : {F : Type 0} → F → Settings F
default_settings twenty = record {
  appearance = default_appearance;
  channel_priority = default_priority;
  proxy = default_proxy;
  node_service = default_node_service;
  adaptive = record {
    enabled = true;
    thresholds = record { group_medium = 50; rate_medium = twenty; demote_samples = 5 };
  };
  privacy = default_privacy;
  bluetooth_switch_seconds = 10;
  strict_crypto = true;
}

-- The files by their paths.
abbrev pub Disk : Type 0
Disk = Map Bytes

-- `dir.join("settings.json")`.
unfoldable pub file : Bytes → Bytes
unfolding codes
file dir = dir ++ codes "/settings.json"

-- What the system makes of a write: it is done, or it fails and leaves these bytes in the file.
pub data Write : Type 0 where
  written : Write
  torn : Bytes → String → Write

module _ {F : Type 0} (json : Codec (Settings F)) where
  -- The outcomes are those of `create_dir_all` and of `write`.
  unfoldable pub save :
      Settings F → Bytes → Outcome (Unit {0}) → Write → Disk → Disk × Result (Unit {0})
  unfolding file
  save s dir made write disk = elim made [
    | failed e ↦ (disk, err (io e))
    | done _ ↦ elim (json.into_writer s) [
      | failed e ↦ (disk, err (config e))
      | done bytes ↦ elim write [
        | written ↦ (insert (file dir) bytes disk, ok tt)
        | torn left e ↦ (insert (file dir) left disk, err (io e))
      ]
    ]
  ]

  -- A file that cannot be read, or whose text cannot be parsed, gives the defaults. `readable` is
  -- whether the system lets the file be read.
  unfoldable pub load_or_default : F → Bytes → Bool → Disk → Settings F
  unfolding file get
  load_or_default twenty dir readable disk = elim readable [
    | false ↦ default_settings twenty
    | true ↦ elim (get (file dir) disk) [
      | none ↦ default_settings twenty
      | some bytes ↦ elim (json.from_reader bytes) [
        | failed e ↦ default_settings twenty
        | done s ↦ s
      ]
    ]
  ]
