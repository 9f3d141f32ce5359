-- ===== src/Core/Registry.antt =====
-- `FormRegistry` (src/core/registry.ts) as the list of its entries: one for each form id, replaced in
-- place by `set`.
use exfer_honor.Base.{Bool, true, false, Option, none, some, List, [], ◌∷◌, if◌then◌else◌}
use exfer_honor.Spec.Types.{SettlementFormId}
use exfer_honor.Spec.Errors.{Thrown, HonorErrorCode}
use exfer_honor.Ports.Effect.{Eff, pure, raise}
use exfer_honor.Ports.Form.{SettlementForm}

abbrev pub same_form : SettlementFormId → SettlementFormId → Bool
same_form SettlementFormId.plain SettlementFormId.plain = true
same_form SettlementFormId.htlc SettlementFormId.htlc = true
same_form _ _ = false

module _ {W : Type 0} where
  unfoldable pub find_form : SettlementFormId → List (SettlementForm W) → Option (SettlementForm W)
  find_form id [] = none
  find_form id (f ∷ fs) = if same_form f.id id then some f else find_form id fs

  unfoldable pub set_form : SettlementForm W → List (SettlementForm W) → List (SettlementForm W)
  set_form form [] = form ∷ []
  set_form form (f ∷ fs) = if same_form f.id form.id then form ∷ fs else f ∷ set_form form fs

  unfoldable pub register_all :
      List (SettlementForm W) → List (SettlementForm W) → List (SettlementForm W)
  register_all forms [] = forms
  register_all forms (f ∷ fs) = register_all (set_form f forms) fs

  -- The constructor and `createFormRegistry`.
  unfoldable pub create_form_registry : List (SettlementForm W) → List (SettlementForm W)
  create_form_registry initial = register_all [] initial

  unfoldable pub or_malformed : Option (SettlementForm W) → Eff W (SettlementForm W)
  or_malformed none = raise (Thrown.honor_error HonorErrorCode.malformed_quote)
  or_malformed (some f) = pure f

  unfoldable pub get_form : SettlementFormId → List (SettlementForm W) → Eff W (SettlementForm W)
  unfolding or_malformed
  get_form id forms = or_malformed (find_form id forms)

  -- `has`.
  unfoldable pub has_form : SettlementFormId → List (SettlementForm W) → Bool
  unfolding find_form
  has_form id forms = elim (find_form id forms) [ none ↦ false | some _ ↦ true ]
