-- ===== src/Forms/Plain/Scoring.antt =====
-- What a verdict of `PlainOutputForm.score` (src/forms/plain.ts) rests on.
use exfer_honor.Base.{
  ℕ, suc, ◌+◌, ◌≤◌, ◌≡◌, refl, sym, ◌∙◌, subst, Option, none, some, List, [], ◌∷◌, arith,
  Option-cases, inl, inr, ◌↔◌, get_elem?,
}
use exfer_honor.Spec.Types.{
  SettlementFormId, SettlementCandidate, DeclineReason, WaitReason, HonorVerdict,
}
use exfer_honor.Spec.Errors.{ok}
use exfer_honor.Ports.Effect.{Eff, pure, >>=-eq-ok, >>=-ok}
use exfer_honor.Ports.Chain.{RawSettlementCandidate}
use exfer_honor.Ports.Form.{ScoringCtx}
use exfer_honor.Forms.Spine.{SpineResult, bound_candidate, declined, run_binding_spine}
use exfer_honor.Forms.Spine.Binding.{Binds, run_binding_spine-bound_iff}
use exfer_honor.Forms.Spine.Verdicts.{run_binding_spine-Returns}
use exfer_honor.Forms.Plain.{depth_gate, score_from, score}

-- A candidate lies in a block, at the confirmation depth or deeper.
abbrev pub IsDeep : (tip confirmation_depth : ℕ) → SettlementCandidate → Type 0
IsDeep tip confirmation_depth c =
    (height : ℕ) × (c.block_height ≡ some height) × (confirmation_depth + height ≤ tip + 1)

-- The depth gate honors exactly the candidates that are deep enough, each as itself.
pub depth_gate-honor_iff :
    (tip confirmation_depth : ℕ) (c found : SettlementCandidate) (form : SettlementFormId)
    → (depth_gate tip confirmation_depth c ≡ HonorVerdict.honor found form)
      ↔ ((found ≡ c) × (form ≡ SettlementFormId.plain) × IsDeep tip confirmation_depth c)
unfolding depth_gate
depth_gate-honor_iff tip confirmation_depth c found form = elim (Option-cases c.block_height) [
  | inl e ↦ (λ h. absurd (ground arith), λ (same, plain, deep). absurd (ground arith))
  | inr (height, e) ↦ (
    λ h. (ground arith, ground arith, (height, e, ground arith)),
    λ (same, plain, deep). ground arith,
  )
]

abbrev IsNoHonor : Option HonorVerdict → Type 0
IsNoHonor none = Unit
IsNoHonor (some (HonorVerdict.honor _ _)) = ⊥
IsNoHonor (some (HonorVerdict.wait _)) = Unit
IsNoHonor (some (HonorVerdict.decline _)) = Unit

module _ {W : Type 0} (ctx : ScoringCtx W) where
  -- The payment that an honor is for: one of those found, which binds and is deep enough.
  pub record IsPaid (raws : List RawSettlementCandidate) (c : SettlementCandidate) (after : W)
      : Type 0 where
    pub index : ℕ
    pub raw : RawSettlementCandidate
    pub found : get_elem? raws index ≡ some raw
    pub own : c ≡ bound_candidate ctx raw SettlementFormId.plain
    pub before : W
    pub binds : Binds ctx raw before after
    pub deep : IsDeep ctx.tip ctx.config.confirmation_depth c

  further :
      (raw : RawSettlementCandidate) (raws : List RawSettlementCandidate) (c : SettlementCandidate)
      (after : W)
      → IsPaid raws c after
      → IsPaid (raw ∷ raws) c after
  further raw raws c after p = record {
    index = suc p.index;
    raw = p.raw;
    found = p.found;
    own = p.own;
    before = p.before;
    binds = p.binds;
    deep = p.deep;
  }

  abbrev after_gate : List RawSettlementCandidate → HonorVerdict → Eff W HonorVerdict
  after_gate cs v = elim v [
    | HonorVerdict.honor found form ↦ pure (HonorVerdict.honor found form)
    | HonorVerdict.wait reason ↦ score_from ctx (some (HonorVerdict.wait reason)) cs
    | HonorVerdict.decline reason ↦ score_from ctx (some (HonorVerdict.decline reason)) cs
  ]

  abbrev after_spine :
      Option HonorVerdict → List RawSettlementCandidate → SpineResult → Eff W HonorVerdict
  after_spine last cs spine = elim spine [
    | SpineResult.skip ↦ score_from ctx last cs
    | SpineResult.verdict v ↦ score_from ctx (some v) cs
    | SpineResult.bound candidate ↦
        after_gate cs (depth_gate ctx.tip ctx.config.confirmation_depth candidate)
  ]

  abbrev IsSound : List RawSettlementCandidate → Type 0
  IsSound raws =
      (last : Option HonorVerdict) (c : SettlementCandidate) (form : SettlementFormId) (w after : W)
      → IsNoHonor last
      → score_from ctx last raws w ≡ (ok (HonorVerdict.honor c form), after)
      → (form ≡ SettlementFormId.plain) × IsPaid raws c after

  -- One round of the loop, if the rest is sound.
  module _ (raw : RawSettlementCandidate) (raws : List RawSettlementCandidate) (rest : IsSound raws)
      (c : SettlementCandidate) (form : SettlementFormId) (w after : W) where
    onward :
        (v : HonorVerdict) (w₁ : W)
        → IsNoHonor (some v)
        → score_from ctx (some v) raws w₁ ≡ (ok (HonorVerdict.honor c form), after)
        → (form ≡ SettlementFormId.plain) × IsPaid (raw ∷ raws) c after
    onward v w₁ t f =
        let (plain, paid) = rest (some v) c form w₁ after t f in
        (plain, further raw raws c after paid)

    gated :
        (found : SettlementCandidate) (w₁ : W)
        → run_binding_spine ctx raw SettlementFormId.plain w ≡ (ok (SpineResult.bound found), w₁)
        → (v : HonorVerdict) → depth_gate ctx.tip ctx.config.confirmation_depth found ≡ v
        → after_gate raws v w₁ ≡ (ok (HonorVerdict.honor c form), after)
        → (form ≡ SettlementFormId.plain) × IsPaid (raw ∷ raws) c after
    gated found w₁ e (HonorVerdict.wait r) d f = onward (HonorVerdict.wait r) w₁ tt f
    gated found w₁ e (HonorVerdict.decline r) d f = onward (HonorVerdict.decline r) w₁ tt f
    gated found w₁ e (HonorVerdict.honor c' form') d f =
        let (same, plain, deep) = (depth_gate-honor_iff _ _ found c' form').0 d in
        let (own, binds) = (run_binding_spine-bound_iff ctx raw _ found w w₁).0 e in
        let same_c : c' ≡ c = ground arith in
        (
          ground arith,
          record {
            index = 0;
            raw = raw;
            found = refl;
            own = sym same_c ∙ same ∙ own;
            before = w;
            binds = subst (Binds ctx raw w) (ground arith) binds;
            deep = subst (IsDeep ctx.tip ctx.config.confirmation_depth) (sym same ∙ same_c) deep;
          },
        )

    round :
        (last : Option HonorVerdict) (spine : SpineResult) (w₁ : W)
        → IsNoHonor last
        → run_binding_spine ctx raw SettlementFormId.plain w ≡ (ok spine, w₁)
        → after_spine last raws spine w₁ ≡ (ok (HonorVerdict.honor c form), after)
        → (form ≡ SettlementFormId.plain) × IsPaid (raw ∷ raws) c after
    round last SpineResult.skip w₁ s e f =
        let (plain, paid) = rest last c form w₁ after s f in (plain, further raw raws c after paid)
    round last (SpineResult.verdict v) w₁ s e f =
        let (reason, declines) =
          run_binding_spine-Returns ctx raw _ w w₁ (SpineResult.verdict v) e in
        onward v w₁ (subst (λ u. IsNoHonor (some u)) (sym declines) tt) f
    round last (SpineResult.bound found) w₁ s e f = gated found w₁ e _ refl f

  score_from-IsSound : (raws : List RawSettlementCandidate) → IsSound raws
  unfolding score_from
  score_from-IsSound [] none c form w after s h = absurd (ground arith)
  score_from-IsSound [] (some (HonorVerdict.honor _ _)) c form w after s h = elim s [ ]
  score_from-IsSound [] (some (HonorVerdict.wait _)) c form w after s h = absurd (ground arith)
  score_from-IsSound [] (some (HonorVerdict.decline _)) c form w after s h = absurd (ground arith)
  score_from-IsSound (raw ∷ raws) last c form w after s h =
      let (spine, w₁, e, f) =
        >>=-eq-ok (run_binding_spine ctx raw SettlementFormId.plain) (after_spine last raws) w h in
      round raw raws (score_from-IsSound raws) c form w after last spine w₁ s e f

  -- If the plain form honors a candidate, it is one of the payments found: it binds to the quote, lies at
  -- the confirmation depth or deeper, and the honor is for that payment as it was found.
  pub score-honor :
      (raws : List RawSettlementCandidate) (c : SettlementCandidate) (form : SettlementFormId)
      (w after : W)
      → score ctx raws w ≡ (ok (HonorVerdict.honor c form), after)
      → (form ≡ SettlementFormId.plain) × IsPaid raws c after
  unfolding score
  score-honor raws c form w after h = score_from-IsSound raws none c form w after tt h

  -- A first payment that binds and lies deep enough is honored, whatever else was found.
  pub score-first :
      (raw : RawSettlementCandidate) (raws : List RawSettlementCandidate) (w after : W)
      → Binds ctx raw w after
      → IsDeep ctx.tip ctx.config.confirmation_depth
          (bound_candidate ctx raw SettlementFormId.plain)
      → score ctx (raw ∷ raws) w ≡ (
        ok (
            HonorVerdict.honor
              (bound_candidate ctx raw SettlementFormId.plain)
              SettlementFormId.plain),
        after,
      )
  unfolding score score_from
  score-first raw raws w after b deep =
      >>=-ok (run_binding_spine ctx raw SettlementFormId.plain) (after_spine none raws) w
        ((run_binding_spine-bound_iff ctx raw SettlementFormId.plain _ w after).1 (refl, b))
      ∙ rw
          (
            after_spine,
            (depth_gate-honor_iff ctx.tip ctx.config.confirmation_depth
                  (bound_candidate ctx raw SettlementFormId.plain) _ _).1
                (refl, refl, deep),
          )
          refl

  -- A first payment that binds at too small a depth is passed over: if the only other payment found is
  -- declined, the verdict is that decline, and not a wait.
  pub score_masked :
      (shallow other : RawSettlementCandidate) (reason : DeclineReason) (w w₁ after : W)
      → Binds ctx shallow w w₁
      → (depth_gate ctx.tip ctx.config.confirmation_depth
            (bound_candidate ctx shallow SettlementFormId.plain)
          ≡ HonorVerdict.wait WaitReason.insufficient_depth)
      → run_binding_spine ctx other SettlementFormId.plain w₁ ≡ (ok (declined reason), after)
      → score ctx (shallow ∷ other ∷ []) w ≡ (ok (HonorVerdict.decline reason), after)
  unfolding score score_from
  score_masked shallow other reason w w₁ after b gate declines =
      >>=-ok (run_binding_spine ctx shallow SettlementFormId.plain) (after_spine none (other ∷ []))
        w ((run_binding_spine-bound_iff ctx shallow SettlementFormId.plain _ w w₁).1 (refl, b))
      ∙ rw (after_spine, gate)
          (>>=-ok (run_binding_spine ctx other SettlementFormId.plain)
            (after_spine (some (HonorVerdict.wait WaitReason.insufficient_depth)) []) w₁ declines)
