-- ===== src/Core/Alike.antt =====
-- What an engine is built from (src/core), over two stores and the states that they act on.
use exfer_honor.Base.{refl, subst, ℕ, Bool, true, false, Option, some, List, [], ◌∷◌, if◌then◌else◌}
use exfer_honor.Spec.Types.{SettlementFormId, AcceptedQuote, HonorKey}
use exfer_honor.Ports.Store.{DeliverFn, HonorTxnInput}
use exfer_honor.Ports.Effect.{Eff, ◌>>=◌}
use exfer_honor.Ports.Alike.{Alike, >>=-Alike}
use exfer_honor.Ports.Lift.{Part, PartsAgree, lift, lift_chain, lift_keys, lift-Alike}
use exfer_honor.Ports.Chain.{ChainSource, KeyCustody}
use exfer_honor.Ports.Form.{HonorConfig, SettlementForm}
use exfer_honor.Ports.Deps.{StorePort, HonorDeps}
use exfer_honor.Forms.Alike.{FormAlike}
use exfer_honor.Store.Contract.{quote_key}
use exfer_honor.Store.Sqlite.{input_key}
use exfer_honor.Core.Registry.{same_form, find_form, get_form, or_malformed}
use exfer_honor.Core.Scorer.{score_quote}

-- Two stores whose methods end alike, for the quotes of which `P` holds and the deliveries of which `F` does.
pub record StoreAlike {V W G : Type 0} (R : V → W → Type 0) (P : HonorKey → Type 0)
    (F : DeliverFn G → Type 0) (s : StorePort V G) (t : StorePort W G) : Type 0 where
  pub accepts :
      (a : AcceptedQuote) (at until : ℕ)
      → P (quote_key a)
      → Alike R (s.upsert_accepted a at until) (t.upsert_accepted a at until)
  pub reads : (k : HonorKey) → P k → Alike R (s.get_seen k) (t.get_seen k)
  pub observes :
      (k : HonorKey) (now : ℕ)
      → P k
      → Alike R (s.mark_observed_before_expiry k now) (t.mark_observed_before_expiry k now)
  pub honors :
      (input : HonorTxnInput G)
      → P (input_key input)
      → F input.deliver
      → Alike R (s.run_honor_txn input) (t.run_honor_txn input)

-- The bag of ports over a store, with the chain, the keystore and the clock lifted.
abbrev pub lifted_deps :
    {E X G : Type 0}
    → Part E X
    → ChainSource E
    → KeyCustody E
    → Eff E ℕ
    → HonorConfig
    → StorePort X G
    → List (SettlementForm X)
    → HonorDeps X G
lifted_deps part chain keys clock config store forms = record {
  store = store;
  chain = lift_chain part chain;
  keys = lift_keys part keys;
  clock = lift part clock;
  forms = forms;
  config = config;
}

module _ {E V W : Type 0} (R : V → W → Type 0) (left : Part E V) (right : Part E W)
    (agree : PartsAgree R left right) (chain : ChainSource E) (keys : KeyCustody E)
    (config : HonorConfig) where
  abbrev pub FormsAlike : List (SettlementForm V) → List (SettlementForm W) → Type 0
  FormsAlike [] [] = Unit
  FormsAlike (f ∷ fs) (g ∷ gs) =
      FormAlike R left right agree chain keys config f g × FormsAlike fs gs
  FormsAlike [] (g ∷ gs) = ⊥
  FormsAlike (f ∷ fs) [] = ⊥

  picked_alike :
      {A : Type 0} (b : Bool) (f : SettlementForm V) (g : SettlementForm W)
      (x : Option (SettlementForm V)) (y : Option (SettlementForm W))
      (k : SettlementForm V → Eff V A) (l : SettlementForm W → Eff W A)
      → Alike R (k f) (l g)
      → Alike R (or_malformed x >>= k) (or_malformed y >>= l)
      → Alike R
          (or_malformed (if b then some f else x) >>= k)
          (or_malformed (if b then some g else y) >>= l)
  unfolding or_malformed
  picked_alike true f g x y k l h rest = h
  picked_alike false f g x y k l h rest = rest

  pub get_form-Alike :
      {A : Type 0} (id : SettlementFormId) (fs : List (SettlementForm V))
      (gs : List (SettlementForm W)) (k : SettlementForm V → Eff V A)
      (l : SettlementForm W → Eff W A)
      → FormsAlike fs gs
      → ((f : SettlementForm V) (g : SettlementForm W)
          → FormAlike R left right agree chain keys config f g
          → Alike R (k f) (l g))
      → Alike R (get_form id fs >>= k) (get_form id gs >>= l)
  unfolding get_form find_form
  get_form-Alike id [] [] k l u h = λ v w r. (refl, r)
  get_form-Alike id [] (g ∷ gs) k l u h = absurd u
  get_form-Alike id (f ∷ fs) [] k l u h = absurd u
  get_form-Alike id (f ∷ fs) (g ∷ gs) k l u h =
      subst
        (λ i.
          Alike R (or_malformed (if same_form f.id id then some f else find_form id fs) >>= k)
            (or_malformed (if same_form i id then some g else find_form id gs) >>= l))
        u.0.same_id
        (picked_alike (same_form f.id id) f g (find_form id fs) (find_form id gs) k l (h f g u.0)
          (get_form-Alike id fs gs k l u.1 h))

  pub score_quote-Alike :
      {G : Type 0} (clock : Eff E ℕ) (s : StorePort V G) (t : StorePort W G)
      (fs : List (SettlementForm V)) (gs : List (SettlementForm W)) (quote : AcceptedQuote)
      (now : ℕ)
      → FormsAlike fs gs
      → Alike R
          (score_quote (lifted_deps left chain keys clock config s fs) quote now)
          (score_quote (lifted_deps right chain keys clock config t gs) quote now)
  unfolding score_quote
  score_quote-Alike clock s t fs gs quote now forms =
      get_form-Alike quote.form fs gs _ _ forms (λ f g a.
        >>=-Alike R (lift-Alike chain.tip_height agree)
          (λ tip. >>=-Alike R (a.discovers quote now tip) (λ raw. a.scores quote now tip raw)))
