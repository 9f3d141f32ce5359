-- ===== src/Ports/Lift.antt =====
-- The ports that read the rest of the world (chain, keystore and clock), as calls over a larger state.
use exfer_honor.Base.{◌≡◌, refl, subst, Option, none, some}
use exfer_honor.Ports.Effect.{Eff}
use exfer_honor.Ports.Alike.{Alike}
use exfer_honor.Ports.Chain.{ChainSource, KeyCustody}

-- Where the rest of the world `E` stands in a state `W`.
pub record Part (E W : Type 0) : Type 0 where
  pub get : W → E
  pub put : E → W → W

module _ {E W : Type 0} (part : Part E W) where
  abbrev pub lift : {A : Type 0} → Eff E A → Eff W A
  lift m w = let (r, e) = m (part.get w) in (r, part.put e w)

  abbrev pub lift_given : {A B C : Type 0} → Option (A → B → Eff E C) → Option (A → B → Eff W C)
  lift_given none = none
  lift_given (some f) = some (λ a b. lift (f a b))

  abbrev pub lift_chain : ChainSource E → ChainSource W
  lift_chain c = record {
    tip_height = lift c.tip_height;
    get_output_datum = λ o. lift (c.get_output_datum o);
    find_settlements_by_quote_id = λ q. lift (c.find_settlements_by_quote_id q);
    get_transaction = λ t. lift (c.get_transaction t);
    get_tx_inputs = λ t. lift (c.get_tx_inputs t);
    get_output_script = λ o. lift (c.get_output_script o);
    get_htlc = λ o. lift (c.get_htlc o);
    submit_claim = lift_given c.submit_claim;
  }

  abbrev pub lift_keys : KeyCustody E → KeyCustody W
  lift_keys k = record {
    controls_payee = λ p. lift (k.controls_payee p);
    htlc_preimage_for = lift_given k.htlc_preimage_for;
  }

-- Related states have the same rest of the world, and stay related when it changes.
pub record PartsAgree {E V W : Type 0} (R : V → W → Type 0) (left : Part E V) (right : Part E W)
    : Type 0 where
  pub same : (v : V) (w : W) → R v w → left.get v ≡ right.get w
  pub keeps : (v : V) (w : W) (e : E) → R v w → R (left.put e v) (right.put e w)

pub lift-Alike :
    {E V W A : Type 0} {R : V → W → Type 0} {left : Part E V} {right : Part E W} (m : Eff E A)
    → PartsAgree R left right
    → Alike R (lift left m) (lift right m)
lift-Alike {A} {R} {left} {right} m agree v w r =
    subst
      (λ (e : _).
        ((m (left.get v)).0 ≡ (m e).0) × R (left.put (m (left.get v)).1 v) (right.put (m e).1 w))
      (agree.same v w r) (refl, agree.keeps v w (m (left.get v)).1 r)
