-- ===== src/Core/Engine/Honors.antt =====
-- When `honor` (src/core/engine.ts) answers 'honored', by what it reads of its ports.
use exfer_honor.Base.{ℕ, ◌≡◌, sym, ap, subst, Option, none, some, ◌↔◌, arith}
use exfer_honor.Spec.Types.{Outpoint, SettlementCandidate, HonorOutcome, HonorKey, RegisterOpts}
use exfer_honor.Spec.Errors.{ok}
use exfer_honor.Ports.Store.{SeenRow, DeliverFn, HonorTxnInput}
use exfer_honor.Ports.World.{World}
use exfer_honor.Ports.Form.{SettlementForm}
use exfer_honor.Ports.Deps.{HonorDeps}
use exfer_honor.Core.Registry.{find_form}
use exfer_honor.Core.Engine.{bridged, honor}
use exfer_honor.Core.Engine.Paid.{Started, Paid}
use exfer_honor.Core.Engine.Pays.{honor-Paid_iff}
use exfer_honor.Core.Engine.Reads.{
  AtTime, Scored, Readied, get_form-found, found-get_form, score_quote-Scored, Scored-score_quote,
  prepare_form-Readied, now_or_clock-AtTime,
}

module _ {E G : Type 0} (deps : HonorDeps (World E G) G) where
  module _ (key : HonorKey) (deliver : DeliverFn G) where
    -- What the gate transaction is given deps: the row's key and deadline, the candidate and its outpoint.
    abbrev pub gate_input :
        SettlementForm (World E G) → SeenRow → ℕ → SettlementCandidate → HonorTxnInput G
    gate_input form seen now candidate = record {
      signer_pubkey = key.signer_pubkey;
      quote_id = key.quote_id;
      candidate = candidate;
      outpoint = record { tx_id = candidate.tx_id; output_index = candidate.output_index };
      now = now;
      retain_until = seen.retain_until;
      mode = form.gate_mode;
      deliver = bridged deliver;
    }

    -- The calls of the ports that end in an honor, in their order, and the states between them.
    pub record Honoring (given_now : Option ℕ) (o : Outpoint) (w after : World E G) : Type 0 where
      pub now : ℕ
      pub past_clock : World E G
      pub at_time : AtTime deps given_now now w past_clock
      pub seen : SeenRow
      pub past_row : World E G
      pub reads_row : deps.store.get_seen key past_clock ≡ (ok (some seen), past_row)
      pub is_unhonored : seen.honored_at ≡ none
      pub form : SettlementForm (World E G)
      pub has_form : find_form seen.form deps.forms ≡ some form
      pub candidate : SettlementCandidate
      pub past_score : World E G
      pub scored : Scored deps form seen now candidate past_row past_score
      pub past_prepare : World E G
      pub readies : Readied deps form.prepare seen now candidate past_score past_prepare
      pub commits :
          deps.store.run_honor_txn (gate_input form seen now candidate) past_prepare
          ≡ (ok tt, after)
      pub tx_id : o.tx_id ≡ candidate.tx_id
      pub output_index : o.output_index ≡ candidate.output_index

    Paid-Honoring :
        (opts : RegisterOpts) (o : Outpoint) (w after : World E G) (s : Started deps key opts w)
        → Paid deps key deliver opts.rethrow_delivery_errors s.now s.seen o s.past_row after
        → Honoring opts.now o w after
    Paid-Honoring opts o w after s p =
        let (found, same) = get_form-found deps s.seen p.form p.past_score p.past_form p.strategy in
        record {
          now = s.now;
          past_clock = s.past_clock;
          at_time = (now_or_clock-AtTime deps opts.now s.now w s.past_clock).0 s.reads_clock;
          seen = s.seen;
          past_row = s.past_row;
          reads_row = s.reads_row;
          is_unhonored = s.is_unhonored;
          form = p.form;
          has_form = found;
          candidate = p.candidate;
          past_score = p.past_score;
          scored =
              score_quote-Scored deps s.seen s.now p.candidate p.scored_form p.form s.past_row
                p.past_score found p.scores;
          past_prepare = p.past_prepare;
          readies =
              subst (λ v. Readied deps p.form.prepare s.seen s.now p.candidate v p.past_prepare)
                (sym same)
                ((prepare_form-Readied deps p.form s.seen s.now p.candidate p.past_form
                    p.past_prepare).0
                  p.prepares);
          commits = p.commits;
          tx_id = ap (λ q. q.tx_id) p.spends;
          output_index = ap (λ q. q.output_index) p.spends;
        }

    Honoring-Paid :
        (opts : RegisterOpts) (o : Outpoint) (w after : World E G)
        → Honoring opts.now o w after
        → (s : Started deps key opts w) × Paid deps key deliver opts.rethrow_delivery_errors s.now
            s.seen o s.past_row after
    Honoring-Paid opts o w after h = (
      record {
        now = h.now;
        past_clock = h.past_clock;
        reads_clock = (now_or_clock-AtTime deps opts.now h.now w h.past_clock).1 h.at_time;
        seen = h.seen;
        past_row = h.past_row;
        reads_row = h.reads_row;
        is_unhonored = h.is_unhonored;
      },
      record {
        candidate = h.candidate;
        scored_form = h.scored.scored_form;
        past_score = h.past_score;
        scores =
            Scored-score_quote deps h.seen h.now h.candidate h.form h.past_row h.past_score
              h.has_form h.scored;
        form = h.form;
        past_form = h.past_score;
        strategy = found-get_form deps h.seen h.form h.past_score h.has_form;
        past_prepare = h.past_prepare;
        prepares =
            (prepare_form-Readied deps h.form h.seen h.now h.candidate h.past_score
                h.past_prepare).1
              h.readies;
        commits = h.commits;
        spends = ground arith;
      },
    )

    -- `honor` answers 'honored' exactly where, in this order, the time is taken from the caller or the clock, the
    -- store has the quote's row and it is not honored, the tip is read, the row's form finds payments and
    -- honors a candidate of them, the form has no preparation or runs it at a tip that is read again and is
    -- ready, and a gate transaction on that candidate's outpoint commits, as the last step.
    pub honor-honored_iff :
        (opts : RegisterOpts) (o : Outpoint) (w after : World E G)
        → (honor deps key deliver opts w ≡ (ok (HonorOutcome.honored o), after))
          ↔ Honoring opts.now o w after
    honor-honored_iff opts o w after =
        let steps = honor-Paid_iff deps key deliver opts o w after in
        (
          λ h. let (s, p) = steps.0 h in Paid-Honoring opts o w after s p,
          λ h. steps.1 (Honoring-Paid opts o w after h),
        )
