-- ===== src/Tests/Pays.antt =====
-- A payment from the chain to the gate, at concrete values.
use exfer_honor.Base.{some, text_eq, true, ◌≡◌, ◌↔◌, refl, false, [], arith}
use exfer_honor.Spec.Types.{HonorOutcome, SettlementFormId}
use exfer_honor.Spec.Errors.{ok}
use exfer_honor.Ports.Store.{SeenRow}
use exfer_honor.Store.Table.{first}
use exfer_honor.Store.Rows.{row_from_sql, has_key, has_outpoint}
use exfer_honor.Store.Amount.{amount_to_text, text_to_amount}
use exfer_honor.Store.Contract.{fresh_row, honored_gate}
use exfer_honor.Store.Sqlite.View.{view}
use exfer_honor.Forms.Spine.{check_payer_binding, funded_by}
use exfer_honor.Forms.Spine.Binding.{Binds}
use exfer_honor.Core.Registry.{find_form}
use exfer_honor.Forms.Plain.{plain_form}
use exfer_honor.Core.Engine.{honor}
use exfer_honor.Core.Engine.Honors.{Honoring, honor-honored_iff}
use exfer_honor.Core.Engine.PlainPays.{
  ctx_at, input_at, Payable, after, goods_after, honor-plain_pays,
}
use exfer_honor.Tests.Samples.{
  Host, quote_id, quote, key, point, payment, deps, host, opts, deliver,
}

abbrev honored_host : Host
honored_host = (honor deps key deliver opts host).1

honor-honored_iff_example :
    (honor deps key deliver opts host ≡ (ok (HonorOutcome.honored point), honored_host))
    ↔ Honoring deps key deliver (some 20) point host honored_host
honor-honored_iff_example = honor-honored_iff deps key deliver opts point host honored_host

abbrev seen : SeenRow
seen = fresh_row quote 10 1100

has_plain : find_form SettlementFormId.plain deps.forms ≡ some plain_form
unfolding find_form plain_form
has_plain = refl

payment-Binds : Binds (ctx_at deps refl has_plain key deliver false 20 seen 9) payment host host
unfolding check_payer_binding funded_by text_eq
payment-Binds = record {
  datum = record { quote_id_hex = some quote_id; honorable = true };
  past_datum = host;
  reads = refl;
  names = (refl, refl, (refl, refl));
  amount = refl;
  address = refl;
  past_keys = host;
  controls = refl;
  funded = refl;
}

abbrev Paying : Type 0
Paying = Payable deps refl has_plain key deliver false 20 host

paying : Paying
unfolding first text_eq row_from_sql has_key has_outpoint amount_to_text text_to_amount
paying = record {
  seen = seen;
  known = refl;
  is_plain = refl;
  is_unhonored = refl;
  tip = 9;
  past_tip = host;
  reads_tip = refl;
  raw = payment;
  raws = [];
  past_find = host;
  finds = refl;
  past_binding = host;
  binds = payment-Binds;
  deep = (7, refl, omega arith);
  later_tip = 9;
  at_gate = host;
  reads_later_tip = refl;
  locked = seen;
  still_known = refl;
  still_open = refl;
  is_free = refl;
  well_formed = record { seen_unique = (refl, tt); consumed_unique = tt };
  delivers = refl;
}

honor-plain_pays_example :
    (honor deps key deliver opts host ≡ (
      ok (HonorOutcome.honored paying.raw.outpoint),
      after deps refl has_plain key deliver false 20 host paying,
    ))
    × (view (after deps refl has_plain key deliver false 20 host paying).db
        ≡ honored_gate
            (input_at deps refl has_plain key deliver false 20 paying.seen
              (ctx_at deps refl has_plain key deliver false 20 paying.seen paying.tip)
              paying.raw)
            paying.locked
            (goods_after deps refl has_plain key deliver false 20 host paying)
            (view paying.at_gate.db))
honor-plain_pays_example = honor-plain_pays deps refl has_plain key deliver false 20 host paying
