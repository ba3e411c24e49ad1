-- ===== src/Config.antt =====
-- internal/config/config.go: the bootstrap configuration.
pub mod Files
pub mod RoundTrip
use it_portal_agent.Prelude.{Bool, true, [], String}
use it_portal_agent.Text.{Text, text}

pub record Config : Type 0 where
  pub portal_url : Text
  pub enrollment_key : Text
  pub tls_validation : Bool
  pub proxy : Text
  pub log_level : Text

-- `Default`
unfoldable pub default_config : Config
default_config = record {
  portal_url = text "https://portal.example.com";
  enrollment_key = [];
  tls_validation = true;
  proxy = [];
  log_level = text "info";
}
