-- ===== src/Conformance/BothStores.antt =====
-- The engine that the harness builds (src/conformance/harness.ts) over `FakeSyncStore` and over `SqliteStore`.
use exfer_honor.Base.{◌≡◌, refl, ap, ℕ, Text, List, [], ◌∷◌, All}
use exfer_honor.Ports.World.{World}
use exfer_honor.Ports.Effect.{Eff}
use exfer_honor.Ports.Chain.{ChainSource, KeyCustody}
use exfer_honor.Ports.Form.{HonorConfig}
use exfer_honor.Ports.Deps.{HonorDeps}
use exfer_honor.Store.Contract.{quote_key}
use exfer_honor.Store.Sqlite.Port.{sqlite_store}
use exfer_honor.Store.Fake.Keys.{IsPlainKey}
use exfer_honor.Store.Fake.Honors.{Stages}
use exfer_honor.Store.Fake.Port.{FakeWorld, fake_store}
use exfer_honor.Forms.Alike.{plain_form-Alike}
use exfer_honor.Forms.Plain.{plain_form}
use exfer_honor.Forms.Htlc.{htlc_form}
use exfer_honor.Forms.Htlc.Alike.{htlc_form-Alike}
use exfer_honor.Core.Registry.{create_form_registry, register_all, set_form}
use exfer_honor.Core.Engine.{sweep}
use exfer_honor.Core.Alike.{FormsAlike}
use exfer_honor.Core.Engine.Alike.{EnginesAlike, engines_alike}
use exfer_honor.Core.Engine.BothStores.{
  fake_part, sqlite_part, Both, both_parts, both_maps, both_claims, both_stores, both_reserves,
  both_sweeps, bridged-Stages,
}
use exfer_honor.Core.Engine.Calls.{EngineCall, Answer, with_answer, call, calls}
use exfer_honor.Conformance.{engine_deps}

-- The quote ids of a call have no colon, and its `deliver` writes goods by staging them.
abbrev pub IsPlain : EngineCall (List Text) → Type 0
IsPlain (EngineCall.registers quote opts) = IsPlainKey (quote_key quote)
IsPlain (EngineCall.observes k at) = IsPlainKey k
IsPlain (EngineCall.asks k) = IsPlainKey k
IsPlain (EngineCall.honors k deliver opts) = IsPlainKey k × Stages deliver
IsPlain (EngineCall.tells k) = IsPlainKey k
IsPlain (EngineCall.sweeps now) = Unit

module _ {E : Type 0} (chain : ChainSource E) (keys : KeyCustody E) (clock : Eff E ℕ)
    (config : HonorConfig) where
  abbrev pub fake_deps : HonorDeps (FakeWorld E) (List Text)
  fake_deps = engine_deps fake_part chain keys clock config fake_store

  abbrev pub sqlite_deps : HonorDeps (World E (List Text)) (List Text)
  sqlite_deps = engine_deps sqlite_part chain keys clock config sqlite_store

  both_forms :
      FormsAlike Both fake_part sqlite_part both_parts chain keys config fake_deps.forms
        sqlite_deps.forms
  unfolding create_form_registry register_all set_form plain_form htlc_form
  both_forms = (
    plain_form-Alike Both fake_part sqlite_part both_parts chain keys config,
    (
      htlc_form-Alike Both fake_part sqlite_part both_parts both_claims chain keys config
          fake_store.reserve_claim_outpoint sqlite_store.reserve_claim_outpoint both_reserves,
      tt,
    ),
  )

  -- The same answers, and worlds that hold the same gate, goods, claims and rest.
  abbrev pub AnswerAlike : {A : Type 0} → A × FakeWorld E → A × World E (List Text) → Type 0
  AnswerAlike p q = (p.0 ≡ q.0) × Both p.1 q.1

  engines : EnginesAlike Both IsPlainKey Stages fake_deps sqlite_deps
  engines =
      engines_alike Both fake_part sqlite_part both_parts both_maps chain keys clock config
        IsPlainKey Stages fake_store sqlite_store both_stores fake_deps.forms sqlite_deps.forms
        both_forms

  answered :
      {A : Type 0} (f : A → Answer) (p : A × FakeWorld E) (q : A × World E (List Text))
      → AnswerAlike p q
      → AnswerAlike (with_answer f p) (with_answer f q)
  answered f p q h = (ap f h.0, h.1)

  sweep_alike :
      (now : ℕ) (v : FakeWorld E) (w : World E (List Text))
      → Both v w
      → Both (sweep fake_deps now v).1 (sweep sqlite_deps now w).1
  unfolding sweep
  sweep_alike now v w b = both_sweeps now v w b

  call_alike :
      (c : EngineCall (List Text)) (v : FakeWorld E) (w : World E (List Text))
      → IsPlain c
      → Both v w
      → AnswerAlike (call fake_deps c v) (call sqlite_deps c w)
  unfolding call
  call_alike (EngineCall.registers quote opts) v w plain b =
      answered Answer.registered _ _ (engines.registers quote opts plain v w b)
  call_alike (EngineCall.observes k at) v w plain b =
      answered Answer.observed _ _ (engines.observes k at plain v w b)
  call_alike (EngineCall.asks k) v w plain b =
      answered Answer.asked _ _ (engines.asks k plain v w b)
  call_alike (EngineCall.honors k deliver opts) v w plain b =
      answered Answer.honored _ _
        (engines.honors k deliver opts plain.0 (bridged-Stages deliver plain.1) v w b)
  call_alike (EngineCall.tells k) v w plain b =
      answered Answer.told _ _ (engines.tells k plain v w b)
  call_alike (EngineCall.sweeps now) v w plain b = (refl, sweep_alike now v w b)

  -- The engine that the harness builds, over any configuration and any chain, keystore and clock that act on the
  -- rest of the world only: from worlds in which both reference stores show the same gate and all else is the
  -- same, a sequence of its calls, whose quote ids have no colon and whose `deliver` stages its goods, is
  -- answered alike over either store, throws included, and leaves such worlds again. The counts of a sweep are
  -- not compared.
  pub calls-Both :
      (cs : List (EngineCall (List Text))) (v : FakeWorld E) (w : World E (List Text))
      → All IsPlain cs
      → Both v w
      → AnswerAlike (calls fake_deps cs v) (calls sqlite_deps cs w)
  unfolding calls
  calls-Both [] v w h b = (refl, b)
  calls-Both (c ∷ cs) v w h b =
      let (e, after) = call_alike c v w h.0 b in
      let (es, last) = calls-Both cs (call fake_deps c v).1 (call sqlite_deps c w).1 h.1 after in
      (rw (e, es) refl, last)
