-- ===== src/Store/Contract.antt =====
-- The contract of `Store` (src/ports/store.ts), apart from any tables: what a gate knows of each
-- quote and each outpoint, and what every operation makes of that. The stores are proved against it.
pub mod Answers
pub mod Once
pub mod Held
use exfer_honor.Base.{
  ℕ, Bool, true, false, not, ◌&&◌, ◌||◌, Option, none, some, ltb, ◌==◌, text_eq, if◌then◌else◌, ◌≡◌,
  ◌↔◌, text_eq_iff, arith,
}
use exfer_honor.Spec.Types.{AcceptedQuote, Outpoint, HonorKey, DeliverContext}
use exfer_honor.Spec.Errors.{Thrown, GateKind, Result, ok, throw}
use exfer_honor.Ports.Store.{SeenRow, GateMode, Delivery, DeliverFn, HonorTxnInput}

-- Of an outpoint: who holds it, until when, and whether it is honored or only reserved.
pub record Holding : Type 0 where
  pub holder : HonorKey
  pub is_honored : Bool
  pub retain_until : ℕ

pub record Gate (G : Type 0) : Type 0 where
  pub row : HonorKey → Option SeenRow
  pub holding : Outpoint → Option Holding
  pub goods : G

unfoldable pub same_key : HonorKey → HonorKey → Bool
same_key k j = text_eq k.signer_pubkey j.signer_pubkey && text_eq k.quote_id j.quote_id

unfoldable pub same_outpoint : Outpoint → Outpoint → Bool
same_outpoint o p = text_eq o.tx_id p.tx_id && o.output_index == p.output_index

pub same_key_iff : (k j : HonorKey) → (same_key k j ≡ true) ↔ (k ≡ j)
unfolding same_key
same_key_iff k j = (
  λ h.
      ground
        (arith, text_eq_iff k.signer_pubkey j.signer_pubkey, text_eq_iff k.quote_id j.quote_id),
  λ h.
      ground
        (arith, text_eq_iff k.signer_pubkey j.signer_pubkey, text_eq_iff k.quote_id j.quote_id),
)

pub same_outpoint_iff : (o p : Outpoint) → (same_outpoint o p ≡ true) ↔ (o ≡ p)
unfolding same_outpoint
same_outpoint_iff o p = (
  λ h. ground (arith, text_eq_iff o.tx_id p.tx_id),
  λ h. ground (arith, text_eq_iff o.tx_id p.tx_id),
)

abbrev pub quote_key : AcceptedQuote → HonorKey
quote_key a = record { signer_pubkey = a.signer_pubkey; quote_id = a.quote_id }

abbrev pub fresh_row : AcceptedQuote → ℕ → ℕ → SeenRow
fresh_row a accepted_at retain_until = record {
  signer_pubkey = a.signer_pubkey;
  quote_id = a.quote_id;
  payee_pubkey = a.payee_pubkey;
  payer_pubkey = a.payer_pubkey;
  exfer_amount = a.exfer_amount;
  form = a.form;
  accepted_at = accepted_at;
  expires_at = a.expires_at;
  observed_before_expiry = false;
  honored_at = none;
  honored_outpoint = none;
  retain_until = retain_until;
}

abbrev pub locked_row : ℕ → Outpoint → SeenRow → SeenRow
locked_row now o r = record r { honored_at = some now; honored_outpoint = some o }

-- A row that may be honored at a time: not honored yet, inside the retention window, and either
-- before expiry or observed before expiry.
abbrev pub is_open : ℕ → SeenRow → Bool
is_open now r = elim r.honored_at [
  | none ↦ ltb now r.retain_until && (ltb now r.expires_at || r.observed_before_expiry)
  | some _ ↦ false
]

-- What keeps the gate shut, if anything.
abbrev pub row_refusal : ℕ → Option SeenRow → Option GateKind
row_refusal now none = some GateKind.expired_window
row_refusal now (some r) = if is_open now r then none else elim r.honored_at [
  | none ↦ some GateKind.expired_window
  | some _ ↦ some GateKind.seen_already_honored
]

-- A direct honor wants a free outpoint, a promotion one that is reserved.
abbrev pub holding_refusal : GateMode → Option Holding → Option GateKind
holding_refusal GateMode.single none = none
holding_refusal GateMode.single (some _) = some GateKind.outpoint_taken
holding_refusal GateMode.promote none = some GateKind.outpoint_taken
holding_refusal GateMode.promote (some h) =
    if h.is_honored then some GateKind.outpoint_taken else none

abbrev pub refusal : ℕ → GateMode → Option SeenRow → Option Holding → Option GateKind
refusal now mode row holding = elim (row_refusal now row) [
  | none ↦ holding_refusal mode holding
  | some kind ↦ some kind
]

-- The holding after an honor: a promotion keeps the holder that the reservation named.
abbrev pub honored_holding : HonorKey → ℕ → Option Holding → Holding
honored_holding k retain_until none = record {
  holder = k;
  is_honored = true;
  retain_until = retain_until;
}
honored_holding k retain_until (some h) = record {
  holder = h.holder;
  is_honored = true;
  retain_until = retain_until;
}

abbrev pub kept_row : ℕ → Option SeenRow → Option SeenRow
kept_row now none = none
kept_row now (some r) = if ltb r.retain_until now then none else some r

abbrev pub kept_holding : ℕ → Option Holding → Option Holding
kept_holding now none = none
kept_holding now (some h) = if ltb h.retain_until now then none else some h

module _ {G : Type 0} where
  abbrev pub put_row : HonorKey → SeenRow → Gate G → Gate G
  put_row k r g = record g { row = λ j. if same_key k j then some r else g.row j }

  abbrev pub put_holding : Outpoint → Holding → Gate G → Gate G
  put_holding o h g = record g { holding = λ p. if same_outpoint o p then some h else g.holding p }

  -- The first acceptance of a key is kept, and later ones change nothing.
  abbrev pub accept : AcceptedQuote → ℕ → ℕ → Gate G → Gate G
  accept a accepted_at retain_until g = elim (g.row (quote_key a)) [
    | none ↦ put_row (quote_key a) (fresh_row a accepted_at retain_until) g
    | some _ ↦ g
  ]

  -- The observation latch closes only before expiry.
  abbrev pub observe : HonorKey → ℕ → Gate G → Gate G
  observe k now g = elim (g.row k) [
    | none ↦ g
    | some r ↦
        if ltb now r.expires_at then put_row k (record r { observed_before_expiry = true }) g else g
  ]

  abbrev pub reserve : HonorKey → Outpoint → ℕ → Gate G → Gate G
  reserve k o retain_until g = elim (g.holding o) [
    | none ↦
        put_holding o (record { holder = k; is_honored = false; retain_until = retain_until }) g
    | some _ ↦ g
  ]

  abbrev pub arg_key : HonorTxnInput G → HonorKey
  arg_key arg = record { signer_pubkey = arg.signer_pubkey; quote_id = arg.quote_id }

  abbrev pub arg_context : HonorTxnInput G → DeliverContext
  arg_context arg = record { key = arg_key arg; candidate = arg.candidate; honored_at = arg.now }

  -- Lock the row and take the outpoint, and leave the goods that `deliver` wrote.
  abbrev pub honored_gate : HonorTxnInput G → SeenRow → G → Gate G → Gate G
  honored_gate arg r goods g =
      record (put_holding arg.outpoint
        (honored_holding (arg_key arg) arg.retain_until (g.holding arg.outpoint))
        (put_row (arg_key arg) (locked_row arg.now arg.outpoint r) g)) { goods = goods }

  -- An honor that the gate admits is decided by how `deliver` ended; only a success changes
  -- anything.
  abbrev pub settle :
      (Delivery → Result (Unit {0}))
      → HonorTxnInput G
      → SeenRow
      → Gate G
      → Result (Unit {0}) × Gate G
  settle after_deliver arg r g =
      let (ended, goods) = arg.deliver (arg_context arg) g.goods in
      elim (after_deliver ended) [
        | throw e ↦ (throw e, g)
        | ok _ ↦ (ok tt, honored_gate arg r goods g)
      ]

  -- One honor: refused by the gate, or else settled.
  pub honor : (Delivery → Result (Unit {0})) → HonorTxnInput G → Gate G → Result (Unit {0}) × Gate G
  honor after_deliver arg g = elim (g.row (arg_key arg)) [
    | none ↦ (throw (Thrown.gate_violation GateKind.expired_window), g)
    | some r ↦ elim (refusal arg.now arg.mode (some r) (g.holding arg.outpoint)) [
      | some kind ↦ (throw (Thrown.gate_violation kind), g)
      | none ↦ settle after_deliver arg r g
    ]
  ]

  module _ (after_deliver : Delivery → Result (Unit {0})) (arg : HonorTxnInput G) (g : Gate G) where
    pub honor_gone :
        g.row (arg_key arg) ≡ none
        → honor after_deliver arg g ≡ (throw (Thrown.gate_violation GateKind.expired_window), g)
    unfolding honor
    honor_gone e = rw (e, honor)

    pub honor_refused :
        (r : SeenRow) (kind : GateKind)
        → g.row (arg_key arg) ≡ some r
        → refusal arg.now arg.mode (some r) (g.holding arg.outpoint) ≡ some kind
        → honor after_deliver arg g ≡ (throw (Thrown.gate_violation kind), g)
    unfolding honor
    honor_refused r kind e h = rw (e, honor) (rw h)

    pub honor_admitted :
        (r : SeenRow)
        → g.row (arg_key arg) ≡ some r
        → refusal arg.now arg.mode (some r) (g.holding arg.outpoint) ≡ none
        → honor after_deliver arg g ≡ settle after_deliver arg r g
    unfolding honor
    honor_admitted r e h = rw (e, honor) (rw h)

  -- Rows and holdings past their retention are dropped.
  abbrev pub swept : ℕ → Gate G → Gate G
  swept now g = record {
    row = λ k. kept_row now (g.row k);
    holding = λ o. kept_holding now (g.holding o);
    goods = g.goods;
  }
