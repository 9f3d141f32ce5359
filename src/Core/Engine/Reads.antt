-- ===== src/Core/Engine/Reads.antt =====
-- What `honor` (src/core/engine.ts) reads of its ports on its way to the gate.
use exfer_honor.Base.{
  ℕ, ◌≡◌, refl, sym, ap, ◌∙◌, Option, none, some, List, ◌↔◌, arith, Option-cases, inl, inr,
}
use exfer_honor.Spec.Types.{SettlementFormId, SettlementCandidate, HonorVerdict}
use exfer_honor.Spec.Errors.{Result, ok}
use exfer_honor.Ports.Store.{SeenRow}
use exfer_honor.Ports.World.{World}
use exfer_honor.Ports.Effect.{Eff, pure, ◌>>=◌, >>=-eq-ok, >>=-ok}
use exfer_honor.Ports.Chain.{RawSettlementCandidate}
use exfer_honor.Ports.Form.{ScoringCtx, PrepareResult, SettlementForm}
use exfer_honor.Ports.Deps.{HonorDeps}
use exfer_honor.Core.Registry.{find_form, get_form, or_malformed}
use exfer_honor.Core.Scorer.{quote_from_seen, score_quote}
use exfer_honor.Core.Engine.{now_or_clock, prepare_form}

module _ {E G : Type 0} (deps : HonorDeps (World E G) G) where
  -- The time that the caller gave, or the clock's.
  abbrev pub AtTime : Option ℕ → ℕ → World E G → World E G → Type 0
  AtTime none now w after = deps.clock w ≡ (ok now, after)
  AtTime (some t) now w after = (t ≡ now) × (w ≡ after)

  -- What a form is given of a row.
  abbrev pub given : SeenRow → (now tip : ℕ) → ScoringCtx (World E G)
  given seen now tip = record {
    quote = record {
      quote_id = seen.quote_id;
      signer_pubkey = seen.signer_pubkey;
      payee_pubkey = seen.payee_pubkey;
      payer_pubkey = seen.payer_pubkey;
      exfer_amount = seen.exfer_amount;
      expires_at = seen.expires_at;
      issued_at = seen.accepted_at;
      form = seen.form;
    };
    tip = tip;
    now = now;
    config = deps.config;
    chain = deps.chain;
    keys = deps.keys;
  }

  -- The form finds payments at one tip and honors a candidate among them.
  pub record Scored (form : SettlementForm (World E G)) (seen : SeenRow) (now : ℕ)
      (candidate : SettlementCandidate) (w after : World E G) : Type 0 where
    pub tip : ℕ
    pub past_tip : World E G
    pub reads_tip : deps.chain.tip_height w ≡ (ok tip, past_tip)
    pub raw : List RawSettlementCandidate
    pub past_find : World E G
    pub finds : form.discover (given seen now tip) past_tip ≡ (ok raw, past_find)
    pub scored_form : SettlementFormId
    pub scores :
        form.score (given seen now tip) raw past_find
        ≡ (ok (HonorVerdict.honor candidate scored_form), after)

  -- The form has no preparation, or the one it has is run at a tip that is read again, and is ready.
  abbrev pub Readied :
      Option (ScoringCtx (World E G) → SettlementCandidate → Eff (World E G) PrepareResult)
      → SeenRow
      → ℕ
      → SettlementCandidate
      → World E G
      → World E G
      → Type 0
  Readied none seen now candidate w after = w ≡ after
  Readied (some run) seen now candidate w after =
      (tip : ℕ) × (past_tip : World E G) × (deps.chain.tip_height w ≡ (ok tip, past_tip))
      × (run (given seen now tip) candidate past_tip ≡ (ok PrepareResult.ready, after))

  abbrev strategy_of : SeenRow → World E G → Result (SettlementForm (World E G)) × World E G
  strategy_of seen w = or_malformed (find_form seen.form deps.forms) w

  pub get_form-found :
      (seen : SeenRow) (form : SettlementForm (World E G)) (w after : World E G)
      → get_form seen.form deps.forms w ≡ (ok form, after)
      → (find_form seen.form deps.forms ≡ some form) × (w ≡ after)
  unfolding get_form or_malformed
  get_form-found seen form w after h = elim (Option-cases (find_form seen.form deps.forms)) [
    | inl gone ↦ absurd (ground arith)
    | inr (f, found) ↦ (ground arith, ground arith)
  ]

  pub found-get_form :
      (seen : SeenRow) (form : SettlementForm (World E G)) (w : World E G)
      → find_form seen.form deps.forms ≡ some form
      → get_form seen.form deps.forms w ≡ (ok form, w)
  unfolding get_form or_malformed
  found-get_form seen form w h = rw h refl

  pub score_quote-Scored :
      (seen : SeenRow) (now : ℕ) (candidate : SettlementCandidate) (scored_form : SettlementFormId)
      (form : SettlementForm (World E G)) (w after : World E G)
      → find_form seen.form deps.forms ≡ some form
      → score_quote deps (quote_from_seen seen) now w
        ≡ (ok (HonorVerdict.honor candidate scored_form), after)
      → Scored form seen now candidate w after
  unfolding score_quote
  score_quote-Scored seen now candidate scored_form form w after found h =
      let steps =
        sym (>>=-ok (get_form seen.form deps.forms) _ w (found-get_form seen form w found)) ∙ h in
      let (tip, past_tip, e, f) = >>=-eq-ok deps.chain.tip_height _ w steps in
      let (raw, past_find, g, k) = >>=-eq-ok (form.discover (given seen now tip)) _ past_tip f in
      record {
        tip = tip;
        past_tip = past_tip;
        reads_tip = e;
        raw = raw;
        past_find = past_find;
        finds = g;
        scored_form = scored_form;
        scores = k;
      }

  pub Scored-score_quote :
      (seen : SeenRow) (now : ℕ) (candidate : SettlementCandidate)
      (form : SettlementForm (World E G)) (w after : World E G)
      → find_form seen.form deps.forms ≡ some form
      → (s : Scored form seen now candidate w after)
      → score_quote deps (quote_from_seen seen) now w
        ≡ (ok (HonorVerdict.honor candidate s.scored_form), after)
  unfolding score_quote
  Scored-score_quote seen now candidate form w after found s =
      >>=-ok (get_form seen.form deps.forms) _ w (found-get_form seen form w found)
      ∙ >>=-ok deps.chain.tip_height _ w s.reads_tip
      ∙ >>=-ok (form.discover (given seen now s.tip)) _ s.past_tip s.finds
      ∙ s.scores

  readied :
      (run : Option (ScoringCtx (World E G) → SettlementCandidate → Eff (World E G) PrepareResult))
      (seen : SeenRow) (now : ℕ) (candidate : SettlementCandidate) (w after : World E G)
      → ◌≡◌ {A = Result PrepareResult × World E G}
          (elim run as (λ _. Eff (World E G) PrepareResult) [
            | none ↦ pure PrepareResult.ready
            | some f ↦ do tip ← deps.chain.tip_height; f (given seen now tip) candidate
          ]
            w)
          (ok PrepareResult.ready, after)
        ↔ Readied run seen now candidate w after
  readied none seen now candidate w after =
      (λ h. ap (λ p. p.1) h, λ h. ap (λ v. (ok PrepareResult.ready, v)) h)
  readied (some f) seen now candidate w after = (
    λ h. let (tip, past_tip, e, k) = >>=-eq-ok deps.chain.tip_height _ w h in (tip, past_tip, e, k),
    λ (tip, past_tip, e, k). >>=-ok deps.chain.tip_height _ w e ∙ k,
  )

  pub prepare_form-Readied :
      (form : SettlementForm (World E G)) (seen : SeenRow) (now : ℕ)
      (candidate : SettlementCandidate) (w after : World E G)
      → (prepare_form deps form (quote_from_seen seen) now candidate w
          ≡ (ok PrepareResult.ready, after))
        ↔ Readied form.prepare seen now candidate w after
  unfolding prepare_form
  prepare_form-Readied form seen now candidate w after =
      readied form.prepare seen now candidate w after

  pub now_or_clock-AtTime :
      (given_now : Option ℕ) (now : ℕ) (w after : World E G)
      → (now_or_clock deps given_now w ≡ (ok now, after)) ↔ AtTime given_now now w after
  unfolding now_or_clock
  now_or_clock-AtTime none now w after = (λ h. h, λ h. h)
  now_or_clock-AtTime (some t) now w after =
      (λ h. (ground arith, ap (λ p. p.1) h), λ (e, f). ground arith)
