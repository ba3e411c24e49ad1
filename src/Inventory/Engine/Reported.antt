-- ===== src/Inventory/Engine/Reported.antt =====
-- What the report of a run of internal/inventory/engine.go says.
use it_portal_agent.Prelude.{ℕ, ◌≡◌, true, false, Option, none, some, [], inl, inr, Bool, sym}
use it_portal_agent.FloatingPoint.{Floats}
use it_portal_agent.Inventory.Engine.{Run, named}
use it_portal_agent.Inventory.Identity.{Tools, fingerprint, normalized_hardware}
use it_portal_agent.Inventory.Types.{Hardware, Payload, Report}
use it_portal_agent.Storage.{text_or_empty, value_of}
use it_portal_agent.Sync
use it_portal_agent.Sync.{Delivery, flush, send_json}
use it_portal_agent.Sync.Handed.{IsWaiting, IsDelivered}
use it_portal_agent.Text.Numbers.{hex}
use it_portal_agent.Text.{Text, text}
use it_portal_agent.World.{
  Reply-cases, answer, err≢ok, ok-injective, result, Err, external, message, is_queued, Result, ok,
  err, Env, Context, World,
}

-- The value under which the last fingerprint is stored.
abbrev pub last_fingerprint : World → Option Text
last_fingerprint w = value_of w "inventory_last_fingerprint"

module _ {F : Type 0} (fl : Floats F) (tools : Tools F) (env : Env) (e : Sync.Engine)
    (ctx : Context) where
  -- The snapshot is what the collector gave at some moment, named for the host where it has no name, and
  -- the fingerprint is the hash of its normal form.
  pub record IsTaken (h : Hardware F) (fp : Text) : Type 0 where
    pub moment : ℕ
    pub found : Hardware F
    pub hostname : Text
    pub collected : tools.collect ctx moment ≡ answer found
    pub snapshot : h ≡ named hostname found
    pub bytes : Text
    pub encoded :
        tools.marshal_hardware (normalized_hardware fl tools.lower_unicode h) ≡ answer bytes
    pub hash : fp ≡ hex (env.sha256 bytes)

  -- The payload is the JSON of a snapshot with its fingerprint.
  pub record IsMarshalled (payload fp : Text) : Type 0 where
    pub p : Payload F
    pub encoded : ok payload ≡ result (tools.marshal_payload p)
    pub fingerprint : p.fingerprint ≡ fp
    pub taken : IsTaken p.hardware fp

  -- The report of a run that returned is as its result says, given the fingerprint that was stored
  -- before the run and whether its context was done at its start. Behind SENT the last body that the
  -- Portal accepted is that of the snapshot, and behind QUEUED its payload is the last row of the queue;
  -- in both cases its fingerprint is stored. Behind SKIPPED it was stored before, and the whole hardware
  -- counts as skipped; behind FAILED the stored fingerprint is the old one. The stored error is empty
  -- behind SENT and the message of the returned one behind QUEUED and FAILED. Only a run whose context
  -- was done has no result.
  pub data IsReport (old : Option Text) (done : Bool) (r : Report) (w : World)
      : Option Err → Type 0 where
    sent :
        (payload : Text)
        → IsMarshalled payload r.fingerprint
        → IsDelivered env e payload w
        → r.result ≡ "SENT"
        → last_fingerprint w ≡ some r.fingerprint
        → value_of w "inventory_last_error" ≡ some []
        → IsReport old done r w none
    skipped :
        (h : Hardware F)
        → IsTaken h r.fingerprint
        → r.result ≡ "SKIPPED"
        → text_or_empty (ok (last_fingerprint w)) ≡ r.fingerprint
        → r.skipped_items ≡ r.hardware_count
        → last_fingerprint w ≡ old
        → IsReport old done r w none
    queued :
        {x : Err} (payload : Text)
        → IsMarshalled payload r.fingerprint
        → IsWaiting "inventory" payload w
        → r.result ≡ "QUEUED"
        → r.queued ≡ true
        → is_queued x ≡ true
        → last_fingerprint w ≡ some r.fingerprint
        → value_of w "inventory_last_error" ≡ some (message x)
        → IsReport old done r w (some x)
    failed :
        {x : Err}
        → r.result ≡ "FAILED"
        → is_queued x ≡ false
        → value_of w "inventory_last_error" ≡ some (message x)
        → last_fingerprint w ≡ old
        → IsReport old done r w (some x)
    stopped :
        {x : Err}
        → done ≡ true
        → r.result ≡ ""
        → x ≡ external (text "context canceled")
        → last_fingerprint w ≡ old
        → IsReport old done r w (some x)

  abbrev pub IsConcluded : Option Text → Bool → Result Run × World → Type 0
  IsConcluded old done (ok (r, x), w) = IsReport old done r w x
  IsConcluded old done (err x, w) = ⊥

  pub fingerprint-IsTaken :
      (h : Hardware F) (fp : Text) (found : Hardware F) (hostname : Text) (moment : ℕ)
      → tools.collect ctx moment ≡ answer found
      → h ≡ named hostname found
      → fingerprint fl tools env h ≡ ok fp
      → IsTaken h fp
  unfolding fingerprint
  fingerprint-IsTaken h fp found hostname moment c s f =
      let encoding = tools.marshal_hardware (normalized_hardware fl tools.lower_unicode h) in
      elim (Reply-cases encoding) [
        | inl (t, q) ↦ absurd (err≢ok (rw q at f))
        | inr (b, q) ↦ record {
          moment = moment;
          found = found;
          hostname = hostname;
          collected = c;
          snapshot = s;
          bytes = b;
          encoded = q;
          hash = sym (ok-injective (rw q at f));
        }
      ]
