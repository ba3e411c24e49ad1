-- ===== src/Inventory/Engine/Timeline.antt =====
-- `persistTimeline` of internal/inventory/engine.go: the last fifty events.
use it_portal_agent.Prelude.{
  ℕ, zero, suc, ◌+◌, ◌-◌, ◌≤◌, ◌<◌, ◌≡◌, refl, sym, ap, ◌∙◌, none, some, List, [], ◌∷◌, ◌++◌, arith,
  length, length-append, drop, take, ltb, inl, inr, Bool-cases,
}
use mathlib.Core.Path.{subst}
use it_portal_agent.FloatingPoint.{Floats}
use it_portal_agent.Heartbeat.{Outside}
use it_portal_agent.Inventory.Persistence.{
  put_encoded, stored_timeline, extend_timeline, persist_timeline,
}
use it_portal_agent.Inventory.Engine.Stored.{put_encoded_keeps, stored}
use it_portal_agent.Inventory.Identity.{Tools}
use it_portal_agent.Inventory.Types.{HardwareChange, HistoryEvent}
use it_portal_agent.Storage.{value_of}
use it_portal_agent.Storage.Settings.{get_lem}
use it_portal_agent.Text.{Text}
use it_portal_agent.World.{catch, Reply, answer, ok, Env, World, next}

-- The timeline `new` is `old` and the event behind it, less the oldest events above fifty.
pub record IsExtended (old : List HistoryEvent) (event : HistoryEvent) (new : List HistoryEvent)
    : Type 0 where
  forgotten : List HistoryEvent
  split : forgotten ++ new ≡ old ++ (event ∷ [])
  bound : length new ≤ 50
  newest : (kept : List HistoryEvent) × (new ≡ kept ++ (event ∷ []))
  nothing_lost : length old < 50 → forgotten ≡ []
  full : 50 ≤ length old → length new ≡ 50

take-append-drop {ℓ} : {A : Type ℓ} (n : ℕ) (l : List A) → take n l ++ drop n l ≡ l
take-append-drop zero l = refl
take-append-drop (suc n) [] = refl
take-append-drop (suc n) (a ∷ l) = ap (λ x. a ∷ x) (take-append-drop n l)

length-drop {ℓ} : {A : Type ℓ} (n : ℕ) (l : List A) → length (drop n l) ≡ length l - n
length-drop zero l = omega arith
length-drop (suc n) [] = omega arith
length-drop (suc n) (a ∷ l) = omega (arith, length-drop n l)

-- What is dropped in front of a last element leaves it.
drop-append_last {ℓ} :
    {A : Type ℓ} (n : ℕ) (l : List A) (a : A)
    → n ≤ length l
    → drop n (l ++ (a ∷ [])) ≡ drop n l ++ (a ∷ [])
drop-append_last zero l a h = refl
drop-append_last (suc n) [] a h = absurd (omega arith)
drop-append_last (suc n) (b ∷ l) a h = drop-append_last n l a (omega arith)

module _ {F : Type 0} (fl : Floats F) (tools : Tools F) where
  extend_timeline-IsExtended :
      (old : List HistoryEvent) (event : HistoryEvent)
      → IsExtended old event (extend_timeline fl tools old event)
  unfolding extend_timeline
  extend_timeline-IsExtended old event =
      let longer : List HistoryEvent = old ++ (event ∷ []) in
      let size : length longer ≡ length old + 1 = length-append old (event ∷ []) in
      elim (Bool-cases (ltb 50 (length longer))) [
        | inl e ↦ rw e (record {
          forgotten = take (length longer - 50) longer;
          split = take-append-drop (length longer - 50) longer;
          bound = ground (arith, length-drop (length longer - 50) longer);
          newest = (
            drop (length longer - 50) old,
            drop-append_last (length longer - 50) old event (ground arith),
          );
          nothing_lost = λ h. absurd (ground arith);
          full = λ h. ground (arith, length-drop (length longer - 50) longer);
        })
        | inr e ↦ rw e (record {
          forgotten = [];
          split = refl;
          bound = ground arith;
          newest = (old, refl);
          nothing_lost = λ h. refl;
          full = λ h. absurd (ground arith);
        })
      ]

  -- The timeline is encoded as the text, and read back from it.
  pub record IsReadBack (l : List HistoryEvent) (t : Text) : Type 0 where
    pub marshal : tools.marshal_timeline l ≡ answer t
    pub unmarshal : tools.unmarshal_timeline t ≡ l

  -- The timeline in the table.
  abbrev pub timeline : World → List HistoryEvent
  timeline w = stored_timeline fl tools (ok (value_of w "inventory_change_timeline"))

  written :
      (out : Outside F) (env : Env)
      → ((n : ℕ) → env.statement_error n ≡ none)
      → (r : Reply Text) (t : Text) (w : World) → r ≡ answer t
      → value_of
          (put_encoded fl tools out env "inventory_change_timeline" r w).1
          "inventory_change_timeline"
        ≡ some t
  unfolding put_encoded
  written out env sound r t w h = rw h (stored fl tools out env sound _ t w)

  read_back :
      (l : List HistoryEvent) (t : Text)
      → IsReadBack l t
      → stored_timeline fl tools (ok (some t)) ≡ l
  unfolding stored_timeline
  read_back l t h = h.unmarshal

  -- With a database that works, and where the codec reads back the new timeline, `persistTimeline` puts
  -- one event, of this moment, behind the stored timeline: the stored one then has at most fifty
  -- events, it forgets only the oldest ones, and those only where there were fifty already.
  pub persist_timeline-IsExtended :
      (out : Outside F) (env : Env) (changes : List HardwareChange) (fp t : Text) (w : World)
      → ((n : ℕ) → env.statement_error n ≡ none)
      → IsReadBack
          (extend_timeline fl tools
            (timeline w)
            (record { timestamp = env.now w.tick; fingerprint = fp; changes = changes }))
          t
      → IsExtended
          (timeline w)
          (record { timestamp = env.now w.tick; fingerprint = fp; changes = changes })
          (timeline (persist_timeline fl tools out env changes fp w).1)
  unfolding persist_timeline
  persist_timeline-IsExtended out env changes fp t w sound codec =
      let event : HistoryEvent = record {
        timestamp = env.now w.tick;
        fingerprint = fp;
        changes = changes;
      } in
      let new : List HistoryEvent = extend_timeline fl tools (timeline w) event in
      rw (get_lem env "inventory_change_timeline" (next w), sound (w.tick + 1), catch)
        (subst (IsExtended (timeline w) event)
          (sym (
            ap (λ x. stored_timeline fl tools (ok x))
              (put_encoded_keeps fl tools out env "inventory_last_changes"
                  "inventory_change_timeline" (tools.marshal_changes changes) _ refl
                ∙ written out env sound (tools.marshal_timeline new) t (next (next w))
                    codec.marshal)
            ∙ read_back new t codec))
          (extend_timeline-IsExtended (timeline w) event))
