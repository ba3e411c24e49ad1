-- ===== src/Storage/Secrets.antt =====
-- Secrets: `GetSecret` after `PutSecret`, through base64 and Windows data protection.
use it_portal_agent.Prelude.{ℕ, String, ◌≡◌, ◌≢◌, refl, ◌∙◌, none, some, [], ◌∷◌, arith, inl, inr}
use it_portal_agent.Base64
use it_portal_agent.Base64.RoundTrip.{IsBytes, decode-encode}
use it_portal_agent.Text.{Text}
use it_portal_agent.World.{answer, Reply-cases, next, ok, Env, World}
use it_portal_agent.Storage.{
  value_of, put, protect_secret, unprotect_secret, put_secret, open_secret, get_secret,
}
use it_portal_agent.Storage.Settings.{get_lem, value_of-put_self}

module _ (env : Env) where
  put_secret_run :
      (key : String) (b : ℕ) (t c : Text) (w : World)
      → env.protect w.tick (b ∷ t) ≡ answer c
      → put_secret env key (b ∷ t) w ≡ put env key (Base64.encode c) (next w)
  unfolding put_secret protect_secret
  put_secret_run key b t c w h = ground arith

  -- Where `PutSecret` returns, the row holds the text of a protected form of the secret.
  pub put_secret-eq-ok :
      (key : String) (t : Text) (w : World)
      → (put_secret env key t w).0 ≡ ok tt
      → (c : Text) × (env.protect w.tick t ≡ answer c)
        × (value_of (put_secret env key t w).1 key ≡ some (Base64.encode c))
  put_secret-eq-ok key [] w h = unfold put_secret protect_secret in cc
  put_secret-eq-ok key (b ∷ t) w h = elim (Reply-cases (env.protect w.tick (b ∷ t))) [
    | inl (x, e) ↦ absurd (unfold put_secret protect_secret in ground arith)
    | inr (c, e) ↦
        let run = put_secret_run key b t c w e in
        (c, e, rw run (value_of-put_self env key _ (next w) (rw run at h)))
  ]

-- What the documentation of `CryptProtectData` promises: the result is a non-empty sequence of
-- bytes, and `CryptUnprotectData` gives the data back on the same account.
pub record IsDataProtection (env : Env) : Type 0 where
  pub ne-nil : (n : ℕ) (t c : Text) → env.protect n t ≡ answer c → c ≢ []
  pub all_bytes : (n : ℕ) (t c : Text) → env.protect n t ≡ answer c → IsBytes c
  pub unprotect-protect :
      (n : ℕ) (t c : Text) → env.protect n t ≡ answer c → env.unprotect c ≡ answer t

module _ (env : Env) (law : IsDataProtection env) where
  -- A protected text is not empty, and opens to the text.
  unprotect_secret_lem :
      (n : ℕ) (t c : Text) (w : World)
      → env.protect n t ≡ answer c
      → unprotect_secret env c w ≡ (ok t, next w)
  unfolding unprotect_secret
  unprotect_secret_lem n t [] w h = absurd (law.ne-nil n t [] h refl)
  unprotect_secret_lem n t (b ∷ c) w h = rw (law.unprotect-protect n t (b ∷ c) h, unprotect_secret)

  open_secret_lem :
      (key : String) (n : ℕ) (t c : Text) (w : World)
      → env.protect n t ≡ answer c
      → open_secret env key (some (Base64.encode c)) w ≡ (ok (some t), next w)
  unfolding open_secret
  open_secret_lem key n t c w h =
      rw (decode-encode c (law.all_bytes n t c h), unprotect_secret_lem n t c w h)

  -- Given what is documented of data protection: a secret that `PutSecret` has stored, `GetSecret` reads
  -- back in any world that still holds its row and in which the statement works.
  pub get_secret-put_secret :
      (key : String) (t : Text) (w u : World)
      → (put_secret env key t w).0 ≡ ok tt
      → value_of u key ≡ value_of (put_secret env key t w).1 key
      → env.statement_error u.tick ≡ none
      → (get_secret env key u).0 ≡ ok (some t)
  unfolding get_secret
  get_secret-put_secret key t w u stored kept alive =
      let (c, e, row) = put_secret-eq-ok env key t w stored in
      rw (get_lem env key u, alive, kept ∙ row) (rw (open_secret_lem key w.tick t c (next u) e))
