-- ===== src/Storage/Effects.antt =====
-- What each operation of the store changes, whether it returns or fails.
use it_portal_agent.Base64
use it_portal_agent.Prelude.{
  refl, ◌+◌, ℕ, String, ◌≡◌, ◌∙◌, sym, ap, inl, inr, Option, none, some, List, [], ◌∷◌, ◌++◌, map,
  arith, Option-cases, take, ◌==◌, if◌then◌else◌,
}
use Prim.Native.String.{◌++◌ as ◌<>◌}
use it_portal_agent.Text.{Text}
use it_portal_agent.World.{
  bind-IsPlain, annotate-IsPlain, IsPlain, bind-eq-ok, ok-injective, wrap, wrap_number, Reply-cases,
  external, Result, ok, err, Env, QueueRow, World, IsQuiet, IsQuiet-refl, IsQuiet-trans,
  IsQuiet-next, next, Action, continue, annotate, ◌>>=◌, pure,
}
use it_portal_agent.Storage.{
  value_of, QueueItem, statement, driver_call, get, open_secret, get_secret, unprotect_secret,
  enqueue, next_id, scanned, scan_rows, pending, pending_rows, sort_by_id, delete_queue_item,
  delete_id,
}
use it_portal_agent.Storage.Settings.{get_lem}

module _ (env : Env) where
  pub get-IsQuiet : (key : String) (w : World) → IsQuiet w (get env key w).1
  get-IsQuiet key w = rw get_lem (IsQuiet-next w)

  unprotect_secret-IsQuiet : (c : Text) (w : World) → IsQuiet w (unprotect_secret env c w).1
  unfolding unprotect_secret
  unprotect_secret-IsQuiet [] w = IsQuiet-refl w
  unprotect_secret-IsQuiet (b ∷ t) w = elim (Reply-cases (env.unprotect (b ∷ t))) [
    | inl (c, e) ↦ rw (e, unprotect_secret) (IsQuiet-next w)
    | inr (c, e) ↦ rw (e, unprotect_secret) (IsQuiet-next w)
  ]

  -- A step that leaves the world alone, behind one that does.
  pub continue-IsQuiet {ℓ κ} :
      {A : Type ℓ} {B : Type κ} (a : Result A) (f : A → World → Result B × World) (w v : World)
      → IsQuiet w v
      → ((x : A) (u : World) → IsQuiet u (f x u).1)
      → IsQuiet w (continue a f v).1
  continue-IsQuiet (ok a) f w v q h = IsQuiet-trans q (h a v)
  continue-IsQuiet (err e) f w v q h = q

  pub bind-IsQuiet {ℓ κ} :
      {A : Type ℓ} {B : Type κ} (m : Action A) (f : A → Action B) (w : World)
      → IsQuiet w (m w).1
      → ((x : A) (u : World) → IsQuiet u (f x u).1)
      → IsQuiet w ((m >>= f) w).1
  bind-IsQuiet m f w q h = continue-IsQuiet (m w).0 f w (m w).1 q h

  driver_call-IsQuiet : (w : World) → IsQuiet w (driver_call env w).1
  driver_call-IsQuiet w = elim (Option-cases (env.statement_error w.tick)) [
    | inl e ↦ rw (e, statement) (IsQuiet-next w)
    | inr (c, e) ↦ rw (e, statement) (IsQuiet-next w)
  ]

  open_secret-IsQuiet :
      (key : String) (found : Option Text) (w : World) → IsQuiet w (open_secret env key found w).1
  unfolding open_secret
  open_secret-IsQuiet key none w = IsQuiet-refl w
  open_secret-IsQuiet key (some encoded) w =
      bind-IsQuiet (annotate ("decode protected " <> key) (λ v. (Base64.decode encoded, v)))
        (λ c. annotate ("unprotect " <> key) (unprotect_secret env c) >>= λ t. pure (some t)) w
        (IsQuiet-refl w)
        (λ c u.
          bind-IsQuiet (annotate ("unprotect " <> key) (unprotect_secret env c))
            (λ (t : Text). pure (some t)) u (unprotect_secret-IsQuiet c u) (λ t v. IsQuiet-refl v))

  pub get_secret-IsQuiet : (key : String) (w : World) → IsQuiet w (get_secret env key w).1
  unfolding get_secret
  get_secret-IsQuiet key w =
      continue-IsQuiet (get env key w).0 (open_secret env key) w (get env key w).1
        (get-IsQuiet key w) (open_secret-IsQuiet key)

  -- The row that `Enqueue` writes at a moment.
  unfoldable pub queued_row : String → Text → World → QueueRow
  queued_row type payload w = record {
    id = next_id w.queue;
    type = type;
    payload = payload;
    status = "pending";
    created_at = env.format_nano (env.now w.tick);
  }

  -- `Enqueue` adds its row at the end, or fails and changes nothing.
  pub enqueue_lem :
      (type : String) (payload : Text) (w : World)
      → enqueue env type payload w ≡ (elim (env.statement_error (w.tick + 1)) [
        | none ↦
            (ok tt, record (next (next w)) { queue = w.queue ++ (queued_row type payload w ∷ []) })
        | some e ↦ (err (wrap ("enqueue " <> type) (external e)), next (next w))
      ])
  unfolding enqueue queued_row
  enqueue_lem type payload w = ground arith

  -- `DeleteQueueItem` deletes the row with the id, or fails and changes nothing.
  pub delete_queue_item_lem :
      (id : ℕ) (w : World)
      → delete_queue_item env id w ≡ (elim (env.statement_error w.tick) [
        | none ↦ (ok tt, record (next w) { queue = delete_id id w.queue })
        | some e ↦ (err (wrap_number "delete queue item " id "" (external e)), next w)
      ])
  unfolding delete_queue_item
  delete_queue_item_lem id w = ground arith

  -- The loop over the rows changes nothing.
  scan_rows-IsQuiet : (rows : List QueueRow) (w : World) → IsQuiet w (scan_rows env rows w).1
  unfolding scan_rows
  scan_rows-IsQuiet [] w =
      bind-IsQuiet (annotate "iterate pending queue" (driver_call env)) (λ u. pure []) w
        (driver_call-IsQuiet w) (λ u v. IsQuiet-refl v)
  scan_rows-IsQuiet (r ∷ rows) w =
      bind-IsQuiet (annotate "scan pending queue" (driver_call env))
        (λ u. scan_rows env rows >>= λ items. pure (scanned env r ∷ items)) w
        (driver_call-IsQuiet w)
        (λ u v.
          bind-IsQuiet (scan_rows env rows) (λ items. pure (scanned env r ∷ items)) v
            (scan_rows-IsQuiet rows v) (λ items x. IsQuiet-refl x))

  -- Where it returns, it returns all of them.
  scan_rows-eq-ok :
      (rows : List QueueRow) (w : World) (items : List QueueItem)
      → (scan_rows env rows w).0 ≡ ok items
      → items ≡ map (scanned env) rows
  unfolding scan_rows
  scan_rows-eq-ok [] w items h = ground arith
  scan_rows-eq-ok (r ∷ rows) w items h =
      let (u, p, k) =
        bind-eq-ok (annotate "scan pending queue" (driver_call env))
          (λ u. scan_rows env rows >>= λ xs. pure (scanned env r ∷ xs)) w items h in
      let v : World = (driver_call env w).1 in
      let (xs, e, k') =
        bind-eq-ok (scan_rows env rows) (λ xs. pure (scanned env r ∷ xs)) v items k in
      sym (ok-injective k') ∙ ap (λ l. scanned env r ∷ l) (scan_rows-eq-ok rows v xs e)

  abbrev select_pending : ℕ → Action (List QueueRow)
  select_pending n =
      annotate "read pending queue"
        (statement env (λ w. (take n (sort_by_id (pending_rows w.queue)), w)))

  select_pending-IsQuiet : (n : ℕ) (w : World) → IsQuiet w (select_pending n w).1
  select_pending-IsQuiet n w = elim (Option-cases (env.statement_error w.tick)) [
    | inl e ↦ rw (e, statement) (IsQuiet-next w)
    | inr (c, e) ↦ rw (e, statement) (IsQuiet-next w)
  ]

  select_pending-eq-ok :
      (n : ℕ) (w : World) (rows : List QueueRow)
      → (select_pending n w).0 ≡ ok rows
      → rows ≡ take n (sort_by_id (pending_rows w.queue))
  select_pending-eq-ok n w rows h = ground arith

  abbrev pub effective_limit : ℕ → ℕ
  effective_limit limit = if limit == 0 then 100 else limit

  pub pending-IsQuiet : (limit : ℕ) (w : World) → IsQuiet w (pending env limit w).1
  unfolding pending
  pending-IsQuiet limit w =
      bind-IsQuiet (select_pending (effective_limit limit)) (scan_rows env) w
        (select_pending-IsQuiet (effective_limit limit) w) scan_rows-IsQuiet

  -- Where `Pending` returns, it returns the rows that wait, in the order of their ids, up to the
  -- limit.
  pub pending-eq-ok :
      (limit : ℕ) (w : World) (items : List QueueItem)
      → (pending env limit w).0 ≡ ok items
      → items ≡ map (scanned env) (take (effective_limit limit) (sort_by_id (pending_rows w.queue)))
  unfolding pending
  pending-eq-ok limit w items h =
      let (rows, e, k) =
        bind-eq-ok (select_pending (effective_limit limit)) (scan_rows env) w items h in
      scan_rows-eq-ok rows _ items k
      ∙ ap (map (scanned env)) (select_pending-eq-ok (effective_limit limit) w rows e)

  -- The errors of the store are not `ErrQueued`.
  pub statement-IsPlain {ℓ} :
      {A : Type ℓ} (run : World → A × World) (w : World) → IsPlain (statement env run w).0
  statement-IsPlain run w = elim (Option-cases (env.statement_error w.tick)) [
    | inl e ↦ rw (e, statement) tt
    | inr (t, e) ↦ rw (e, statement) refl
  ]

  pub get-IsPlain : (key : String) (w : World) → IsPlain (get env key w).0
  unfolding get
  get-IsPlain key w =
      annotate-IsPlain ("read " <> key) (statement env (λ v. (value_of v key, v))) w
        (statement-IsPlain (λ v. (value_of v key, v)) w)

  unprotect_secret-IsPlain : (c : Text) (w : World) → IsPlain (unprotect_secret env c w).0
  unfolding unprotect_secret
  unprotect_secret-IsPlain [] w = refl
  unprotect_secret-IsPlain (b ∷ t) w = elim (Reply-cases (env.unprotect (b ∷ t))) [
    | inl (c, e) ↦ rw (e, unprotect_secret) refl
    | inr (c, e) ↦ rw (e, unprotect_secret) tt
  ]

  decode-IsPlain : (t : Text) → IsPlain (Base64.decode t)
  unfolding Base64.decode
  decode-IsPlain t = ground arith

  open_secret-IsPlain :
      (key : String) (found : Option Text) (w : World) → IsPlain (open_secret env key found w).0
  unfolding open_secret
  open_secret-IsPlain key none w = tt
  open_secret-IsPlain key (some encoded) w =
      bind-IsPlain (annotate ("decode protected " <> key) (λ v. (Base64.decode encoded, v)))
        (λ c. annotate ("unprotect " <> key) (unprotect_secret env c) >>= λ t. pure (some t)) w
        (annotate-IsPlain _ (λ v. (Base64.decode encoded, v)) w (decode-IsPlain encoded))
        (λ c u.
          bind-IsPlain (annotate ("unprotect " <> key) (unprotect_secret env c))
            (λ (t : Text). pure (some t)) u
            (annotate-IsPlain _ (unprotect_secret env c) u (unprotect_secret-IsPlain c u))
            (λ t v. tt))

  pub get_secret-IsPlain : (key : String) (w : World) → IsPlain (get_secret env key w).0
  unfolding get_secret
  get_secret-IsPlain key w =
      bind-IsPlain (get env key) (open_secret env key) w (get-IsPlain key w)
        (open_secret-IsPlain key)
