-- ===== src/Core/Engine/BothStores.antt =====
-- The engine (src/core/engine.ts) over each of the two reference stores, `FakeSyncStore`
-- (src/core/fakes.test-helpers.ts) and `SqliteStore` (src/adapters/sqlite-store.ts).
use exfer_honor.Base.{◌≡◌, refl, sym, ap, subst, ◌∙◌, ℕ, Text, List, [], ◌∷◌}
use exfer_honor.Spec.Types.{HonorKey, Outpoint}
use exfer_honor.Spec.Errors.{Result}
use exfer_honor.Ports.Store.{DeliverFn}
use exfer_honor.Ports.World.{World}
use exfer_honor.Ports.Alike.{Alike}
use exfer_honor.Ports.Lift.{Part, PartsAgree}
use exfer_honor.Base.Dict.{lookup}
use exfer_honor.Store.Sqlite.{input_key, get_seen}
use exfer_honor.Store.Sqlite as Sqlite
use exfer_honor.Store.Sqlite.View.{view, IsWellFormed}
use exfer_honor.Store.Sqlite.Refines.{get_seen-view}
use exfer_honor.Store.Sqlite.History.{Call, step, run, view-run, run_honor_txn-answer}
use exfer_honor.Store.Sqlite.Port.{sqlite_store}
use exfer_honor.Store.Fake as Fake
use exfer_honor.Store.Fake.{FakeDb}
use exfer_honor.Store.Fake.Keys.{IsPlainKey}
use exfer_honor.Store.Fake.Refines.{Shows}
use exfer_honor.Store.Fake.Honors.{Stages, run_honor_txn-Agrees}
use exfer_honor.Store.Fake.History.{fake_step, fake_run, IsPlainCall, fake_run-Shows}
use exfer_honor.Store.Fake.Port.{FakeWorld, fake_store}
use exfer_honor.Forms.Htlc.Alike.{ClaimsAgree}
use exfer_honor.Core.Engine.{bridged, mark_throw}
use exfer_honor.Core.Alike.{StoreAlike}
use exfer_honor.Core.Engine.Alike.{MapsAgree}

abbrev pub fake_part : {E : Type 0} → Part E (FakeWorld E)
fake_part = record { get = λ w. w.env.1; put = λ e w. record w { env = (w.env.0, e) } }

abbrev pub sqlite_part : {E : Type 0} → Part E (World E (List Text))
sqlite_part = record { get = λ w. w.env; put = λ e w. record w { env = e } }

-- One gate in both stores, and the rest of both worlds the same.
pub record Both {E : Type 0} (v : FakeWorld E) (w : World E (List Text)) : Type 0 where
  pub shows : Shows v.env.0 (view w.db)
  pub well_formed : IsWellFormed w.db
  pub claim_tx_ids : v.claim_tx_ids ≡ w.claim_tx_ids
  pub claims : v.claims ≡ w.claims
  pub rest : v.env.1 ≡ w.env

module _ {E : Type 0} where
  pub both_parts : PartsAgree (Both {E = E}) fake_part sqlite_part
  both_parts = record {
    same = λ v w b. b.rest;
    keeps = λ v w e b. record {
      shows = b.shows;
      well_formed = b.well_formed;
      claim_tx_ids = b.claim_tx_ids;
      claims = b.claims;
      rest = refl;
    };
  }

  pub both_maps : MapsAgree (Both {E = E})
  both_maps = record {
    same = λ v w b. b.claim_tx_ids;
    keeps = λ v w m b. record {
      shows = b.shows;
      well_formed = b.well_formed;
      claim_tx_ids = refl;
      claims = b.claims;
      rest = b.rest;
    };
  }

  pub both_claims : ClaimsAgree (Both {E = E})
  both_claims = record {
    same = λ v w b. b.claims;
    keeps = λ v w m b. record {
      shows = b.shows;
      well_formed = b.well_formed;
      claim_tx_ids = b.claim_tx_ids;
      claims = refl;
      rest = b.rest;
    };
  }

  -- A call of the stores, on both.
  both_step :
      (c : Call (List Text)) (v : FakeWorld E) (w : World E (List Text))
      → IsPlainCall c
      → Both v w
      → Both (record v { env = (fake_step c v.env.0, v.env.1) }) (record w { db = step c w.db })
  unfolding fake_step fake_run step run
  both_step c v w plain b =
      let (u, e) = view-run (c ∷ []) w.db b.well_formed in
      record {
        shows =
            subst (Shows (fake_step c v.env.0)) (sym e)
              (fake_run-Shows (c ∷ []) v.env.0 (view w.db) (plain, tt) b.shows);
        well_formed = u;
        claim_tx_ids = b.claim_tx_ids;
        claims = b.claims;
        rest = b.rest;
      }

  pub both_stores : StoreAlike (Both {E = E}) IsPlainKey Stages fake_store sqlite_store
  unfolding Fake.upsert_accepted fake_step Sqlite.upsert_accepted step Fake.get_seen lookup
  both_stores = record {
    accepts = λ a at until plain v w b. (refl, both_step (Call.accepts a at until) v w plain b);
    reads = λ k plain v w b. (ap Result.ok (b.shows.rows k plain ∙ sym (get_seen-view k w.db)), b);
    observes = λ k now plain v w b. (refl, both_step (Call.observes k now) v w plain b);
    honors = λ input plain stages v w b. (
      (run_honor_txn-Agrees input plain v.env.0 (view w.db) b.shows stages).0
          ∙ sym (run_honor_txn-answer input w.db b.well_formed),
      both_step (Call.honors input) v w (plain, stages) b,
    );
  }

  pub both_reserves :
      (k : HonorKey) (o : Outpoint) (t : Text) (now : ℕ)
      → Alike
          (Both {E = E})
          (fake_store.reserve_claim_outpoint k o t now)
          (sqlite_store.reserve_claim_outpoint k o t now)
  unfolding Fake.reserve_claim_outpoint fake_step Sqlite.reserve_claim_outpoint step lookup
  both_reserves k o t now v w b = (refl, both_step (Call.reserves k o t) v w tt b)

  pub both_sweeps :
      (now : ℕ) (v : FakeWorld E) (w : World E (List Text))
      → Both v w
      → Both (fake_store.sweep now v).1 (sqlite_store.sweep now w).1
  unfolding Fake.sweep fake_step Sqlite.sweep step
  both_sweeps now v w b = both_step (Call.sweeps now) v w tt b

pub bridged-Stages : (deliver : DeliverFn (List Text)) → Stages deliver → Stages (bridged deliver)
bridged-Stages deliver h ctx goods = ap (λ p. (mark_throw p.0, p.1)) (h ctx goods)
