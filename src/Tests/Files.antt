-- ===== src/Tests/Files.antt =====
-- config.yaml in an environment that writes configurations without key and proxy.
use it_portal_agent.Prelude.{◌≡◌, refl, Bool, true, [], arith}
use it_portal_agent.Config.{Config}
use it_portal_agent.Config.Files.{write_file, save, load_or_create}
use it_portal_agent.Config.RoundTrip.{IsYaml, load_or_create-save}
use it_portal_agent.Text.{Text, text, text_eq, text_eq_iff}
use it_portal_agent.World.{Reply, answer, failure, ok, Env}
use it_portal_agent.Tests.{env, fresh}

abbrev read_config : Text → Config
read_config t = record {
  portal_url = t;
  enrollment_key = [];
  tls_validation = true;
  proxy = [];
  log_level = text "info";
}

abbrev write_config : Text → Text → Bool → Text → Bool → Reply Text
write_config url [] true [] true = answer url
write_config _ _ _ _ _ = failure (text "not supported")

abbrev yaml_env : Env
yaml_env = record env {
  marshal_config = λ c.
      write_config c.portal_url c.enrollment_key c.tls_validation c.proxy
        (text_eq c.log_level (text "info"));
  parse_config = λ t. answer (read_config t);
}

write_config-read :
    (url key : Text) (tls : Bool) (proxy level t : Text)
    → write_config url key tls proxy (text_eq level (text "info")) ≡ answer t
    → answer (read_config t)
      ≡ answer (record {
        portal_url = url;
        enrollment_key = key;
        tls_validation = tls;
        proxy = proxy;
        log_level = level;
      })
write_config-read url key tls proxy level t h = ground (arith, text_eq_iff level (text "info"))

yaml_env-IsYaml : IsYaml yaml_env
yaml_env-IsYaml = record {
  parse-marshal = λ c t h.
      write_config-read c.portal_url c.enrollment_key c.tls_validation c.proxy c.log_level t h;
}

load_or_create-save_example :
    (load_or_create yaml_env (save yaml_env (read_config (text "https://portal")) fresh).1).0
    ≡ ok (read_config (text "https://portal"))
load_or_create-save_example =
    load_or_create-save yaml_env yaml_env-IsYaml (λ n. refl) (λ n. refl)
      (read_config (text "https://portal")) fresh
      (save yaml_env (read_config (text "https://portal")) fresh).1
      (unfold save write_file text_eq in refl) refl refl
