-- ===== src/Security/Verify.antt =====
-- The check of a signed request by its receiver, which has the token and the three headers.
use it_portal_agent.Prelude.{
  ℕ, ◌≡◌, refl, Bool, true, false, Option, some, arith, List, [], ◌∷◌, ◌++◌,
}
use it_portal_agent.Prelude.Assoc.{lookup, lookup-insert}
use it_portal_agent.Text.{Text, text, text_eq, text_eq_iff}
use it_portal_agent.Text.Numbers.{print_decimal, hex}
use mathlib.Core.Path.{subst}
use it_portal_agent.World.{
  World, result, IsPlain, Reply, answer, failure, wrap, next, ok-injective, Result, ok, err, Env,
  Request, map_err, continue,
}
use it_portal_agent.Security.{unix, canonical, set_header, signature, signed, sign_request}

-- The lines of a text, separated by line feeds.
abbrev pub lines : List Text → Text
lines [] = []
lines (line ∷ []) = line
lines (line ∷ next ∷ rest) = line ++ (10 ∷ lines (next ∷ rest))

module _ (env : Env) where
  matches : Option Text → Option Text → Option Text → Text → Request → Bool
  matches (some timestamp) (some nonce) (some mac) token r = text_eq mac (
      hex (
        env.hmac_sha256 token (
          lines (
            timestamp
            ∷ nonce
            ∷ text r.method
            ∷ env.escaped_path r.url
            ∷ hex (env.sha256 r.body)
            ∷ []))))
  matches _ _ _ token r = false

  -- The receiver computes the HMAC of the five lines that the documented canonical form has: the
  -- timestamp and the nonce of the headers, the method, the path and the hash of the body it received.
  pub accepts : Text → Request → Bool
  unfolding matches
  accepts token r =
      matches (lookup "X-ITPortal-Timestamp" r.headers) (lookup "X-ITPortal-Nonce" r.headers)
        (lookup "X-ITPortal-Signature" r.headers) token r

  -- What signing leaves of a request.
  pub record IsSignedBy (token : Text) (r q : Request) : Type 0 where
    pub accepted : accepts token q ≡ true
    pub method : q.method ≡ r.method
    pub url : q.url ≡ r.url
    pub body : q.body ≡ r.body

  signed-IsSignedBy :
      (token timestamp nonce : Text) (r : Request)
      → IsSignedBy token r (signed env token timestamp nonce r)
  unfolding signed set_header accepts signature canonical
  signed-IsSignedBy token timestamp nonce r = record {
    accepted = simp lookup-insert ((text_eq_iff _ _).1 refl);
    method = refl;
    url = refl;
    body = refl;
  }

  -- Where `SignRequest` returns, the request carries a timestamp, a nonce and the HMAC under the token
  -- of the lines timestamp, nonce, method, path and hash of the body, in this order, and its method, its
  -- URL and its body are unchanged.
  pub sign_request-IsSignedBy :
      (token : Text) (now : ℕ) (r q : Request) (w : World)
      → (sign_request env r token now w).0 ≡ ok q
      → IsSignedBy token r q
  unfolding sign_request
  sign_request-IsSignedBy token now r q w h = go (result (env.random w.tick)) h
    where
      go :
          (bytes : Result Text)
          → (continue
              (map_err (wrap "generate nonce") bytes)
              (λ b v. (ok (signed env token (print_decimal (unix now)) (hex b) r), v))
              (next w)).0
            ≡ ok q
          → IsSignedBy token r q
      go (ok b) e =
          subst (IsSignedBy token r) (ok-injective e)
            (signed-IsSignedBy token (print_decimal (unix now)) (hex b) r)
      go (err x) e = absurd (cc)

  pub sign_request-next :
      (token : Text) (now : ℕ) (r : Request) (w : World)
      → (sign_request env r token now w).1 ≡ next w
  unfolding sign_request
  sign_request-next token now r w = ground arith

  pub sign_request-IsPlain :
      (token : Text) (now : ℕ) (r : Request) (w : World)
      → IsPlain (sign_request env r token now w).0
  unfolding sign_request
  sign_request-IsPlain token now r w = go (env.random w.tick)
    where
      go :
          (bytes : Reply Text)
          → IsPlain
              (continue
                (map_err (wrap "generate nonce") (result bytes))
                (λ b v. (ok (signed env token (print_decimal (unix now)) (hex b) r), v))
                (next w)).0
      go (answer b) = tt
      go (failure t) = refl
