-- ===== src/Security.antt =====
-- internal/security/signing.go: the HMAC headers of a request.
--
-- The body of a request is in memory, so that reading and closing it cannot fail here.
pub mod Verify
use it_portal_agent.Prelude.{ℕ, ◌-◌, ◌/◌, ◌^◌, String, ◌++◌}
use it_portal_agent.Prelude.Assoc.{insert}
use it_portal_agent.Text.{Text, text}
use it_portal_agent.Text.Numbers.{print_decimal, hex}
use it_portal_agent.World.{Env, Request, Action, ◌>>=◌, pure, annotate, observe_result}

-- `t.UTC().Unix()`, for times from 1970 on; the zero time is 62135596800 seconds before.
unfoldable pub unix : ℕ → ℕ
unix t = t / 10 ^ 9 - 62135596800

unfoldable pub canonical : Text → Text → String → Text → Text → Text
canonical timestamp nonce method path body_hash =
    timestamp
    ++ (text "\n"
        ++ (nonce
            ++ (text "\n" ++ (text method ++ (text "\n" ++ (path ++ (text "\n" ++ body_hash)))))))

unfoldable pub set_header : String → Text → Request → Request
unfolding insert
set_header name value r = record r { headers = insert name value r.headers }

module _ (env : Env) where
  -- The signature over the canonical form.
  unfoldable pub signature : Text → Text → Text → Request → Text
  unfolding canonical
  signature token timestamp nonce r = hex (
      env.hmac_sha256 token
        (canonical timestamp nonce r.method (env.escaped_path r.url) (hex (env.sha256 r.body))))

  unfoldable pub signed : Text → Text → Text → Request → Request
  signed token timestamp nonce r =
      set_header "X-ITPortal-Signature" (signature token timestamp nonce r)
        (set_header "X-ITPortal-Nonce" nonce (set_header "X-ITPortal-Timestamp" timestamp r))

  -- `SignRequest`
  unfoldable pub sign_request : Request → Text → ℕ → Action Request
  sign_request r token now = do
    nonce_bytes ← annotate "generate nonce" (observe_result env.random)
    pure (signed token (print_decimal (unix now)) (hex nonce_bytes) r)
