-- ===== src/Storage/Settings.antt =====
-- The `config` table as a map: what `Put` leaves for `Get`.
use Prim.Native.String.{◌++◌ as ◌<>◌}
use text.Mathlib.TextPositions.{eq_refl}
use it_portal_agent.Prelude.{
  ◌∙◌, String, Bool, true, false, ◌≡◌, refl, Option, none, some, arith, inl, inr, Option-cases,
  str_eq, if◌then◌else◌,
}
use it_portal_agent.Prelude.Assoc.{lookup-insert}
use it_portal_agent.Text.{Text}
use it_portal_agent.World.{wrap, external, next, ok, err, Env, ConfigRow, World}
use it_portal_agent.Storage.{statement, row_value, value_of, put, get}

row_value-if :
    (b : Bool) (row : ConfigRow) (old : Option ConfigRow)
    → row_value (if b then some row else old) ≡ (if b then some row.value else row_value old)
row_value-if true row old = refl
row_value-if false row old = refl

module _ (env : Env) where
  -- The table after `Put`: on success the key alone has the new value, and on failure nothing moved.
  pub value_of-put :
      (key j : String) (value : Text) (w : World)
      → value_of (put env key value w).1 j ≡ (elim (env.statement_error w.tick) [
        | none ↦ if str_eq j key then some value else value_of w j
        | some e ↦ value_of w j
      ])
  unfolding put
  value_of-put key j value w = elim (Option-cases (env.statement_error w.tick)) [
    | inl e ↦ rw (e, statement) (rw lookup-insert (row_value-if (str_eq j key) _ _))
    | inr (t, e) ↦ rw (e, statement)
  ]

  -- The answer of `Get`, and the world after it.
  pub get_lem :
      (key : String) (w : World)
      → get env key w ≡ (
        (elim (env.statement_error w.tick) [
          | none ↦ ok (value_of w key)
          | some e ↦ err (wrap ("read " <> key) (external e))
        ]),
        next w,
      )
  unfolding get
  get_lem key w = ground arith

  -- `Put` returns exactly where its statement does not fail, and takes one moment.
  pub put-eq-ok :
      (key : String) (value : Text) (w : World)
      → (put env key value w).0 ≡ ok tt
      → env.statement_error w.tick ≡ none
  unfolding put
  put-eq-ok key value w h = ground arith

  pub value_of-put_self :
      (key : String) (value : Text) (w : World)
      → (put env key value w).0 ≡ ok tt
      → value_of (put env key value w).1 key ≡ some value
  value_of-put_self key value w h =
      value_of-put key key value w ∙ rw (put-eq-ok key value w h) (rw eq_refl)
