-- ===== src/Store/Sqlite/History/Once.antt =====
-- Exactly once: over any history a `SqliteStore` commits at most one honor of a key.
use exfer_honor.Base.{
  ℕ, ◌≤◌, ◌≡◌, refl, true, false, List, [], ◌∷◌, arith, Bool-cases, &&_true, inl, inr, ◌∙◌, subst,
  sym,
}
use exfer_honor.Spec.Types.{HonorKey}
use exfer_honor.Store.Rows.{Db}
use exfer_honor.Store.Contract.{Gate, quote_key, same_key, same_key_iff, honor, arg_key}
use exfer_honor.Store.Contract.Once.{
  IsTied, IsSpent, accept-IsTied, accept-IsSpent, observe-IsTied, observe-IsSpent, swept-IsTied,
  swept-IsSpent, reserve-IsTied, reserve-IsSpent, IsSpent-later, honor-IsTied, honor-IsSpent,
  honor-spent, honor-spends,
}
use exfer_honor.Store.Sqlite.{max_safe_integer, after_deliver}
use exfer_honor.Store.Sqlite.View.{view, IsWellFormed}
use exfer_honor.Store.Sqlite.History.{
  Call, is_ok-true, step, commits, honored_times, effect, step-IsWellFormed, shows,
  run_honor_txn-answer,
}

module _ {G : Type 0} (deadline : HonorKey → ℕ) where
  -- When a call may come, after a time: a key is accepted with its one deadline, and honors and
  -- sweeps carry times that do not run backwards.
  abbrev pub IsTimely : ℕ → Call G → Type 0
  IsTimely clock (Call.accepts a at retain_until) = retain_until ≡ deadline (quote_key a)
  IsTimely clock (Call.honors arg) = clock ≤ arg.now
  IsTimely clock (Call.sweeps now) = clock ≤ now
  IsTimely clock _ = Unit

  -- The time after a call.
  abbrev pub later : ℕ → Call G → ℕ
  later clock (Call.honors arg) = arg.now
  later clock (Call.sweeps now) = now
  later clock _ = clock

  abbrev pub AreTimely : ℕ → List (Call G) → Type 0
  AreTimely clock [] = Unit
  AreTimely clock (c ∷ cs) = IsTimely clock c × AreTimely (later clock c) cs

  effect-IsTied :
      (c : Call G) (clock : ℕ) (g : Gate G)
      → IsTimely clock c
      → IsTied deadline g
      → IsTied deadline (effect c g)
  effect-IsTied (Call.accepts a at retain_until) clock g t tied =
      rw t (accept-IsTied deadline a at g tied)
  effect-IsTied (Call.observes k now) clock g t tied = observe-IsTied deadline k now g tied
  effect-IsTied (Call.reserves k o claim_tx_id) clock g t tied =
      reserve-IsTied deadline k o max_safe_integer g tied
  effect-IsTied (Call.honors arg) clock g t tied = honor-IsTied deadline after_deliver arg g tied
  effect-IsTied (Call.sweeps now) clock g t tied = swept-IsTied deadline now g tied

  effect-IsSpent :
      (c : Call G) (clock : ℕ) (k : HonorKey) (g : Gate G)
      → IsTimely clock c
      → IsTied deadline g
      → IsSpent deadline k clock g
      → IsSpent deadline k (later clock c) (effect c g)
  effect-IsSpent (Call.accepts a at retain_until) clock k g t tied s =
      accept-IsSpent deadline a at retain_until clock k g s
  effect-IsSpent (Call.observes j now) clock k g t tied s =
      observe-IsSpent deadline j now clock k g s
  effect-IsSpent (Call.reserves j o claim_tx_id) clock k g t tied s =
      reserve-IsSpent deadline j o max_safe_integer clock k g s
  effect-IsSpent (Call.honors arg) clock k g t tied s =
      honor-IsSpent deadline after_deliver arg g tied arg.now k
        (IsSpent-later deadline clock arg.now k g t s)
  effect-IsSpent (Call.sweeps now) clock k g t tied s =
      swept-IsSpent deadline now clock k g tied t s

  -- A spent key is not honored by any call that comes in time.
  commits-spent :
      (c : Call G) (clock : ℕ) (k : HonorKey) (db : Db G)
      → IsWellFormed db
      → IsTimely clock c
      → IsTied deadline (view db)
      → IsSpent deadline k clock (view db)
      → commits k c db ≡ false
  unfolding commits
  commits-spent (Call.honors arg) clock k db u t tied s =
      elim (Bool-cases (same_key (arg_key arg) k)) [
        | inr other ↦ rw other
        | inl same ↦
            let (e, fails) =
              honor-spent deadline after_deliver arg (view db) tied clock t
                (rw ((same_key_iff (arg_key arg) k).0 same) s) in
            rw (same, run_honor_txn-answer arg db u, fails)
      ]
  commits-spent c clock k db u t tied s = refl

  -- A committed honor spends its key.
  commits-spends :
      (c : Call G) (clock : ℕ) (k : HonorKey) (db : Db G)
      → IsWellFormed db
      → IsTied deadline (view db)
      → commits k c db ≡ true
      → IsSpent deadline k (later clock c) (effect c (view db))
  unfolding commits
  commits-spends (Call.honors arg) clock k db u tied h =
      let (same, done) = &&_true _ _ h in
      subst (λ j. IsSpent deadline j arg.now (honor after_deliver arg (view db)).1)
        ((same_key_iff (arg_key arg) k).0 same)
        (honor-spends deadline after_deliver arg (view db) tied arg.now
          (sym (run_honor_txn-answer arg db u) ∙ is_ok-true _ done))
  commits-spends c clock k db u tied h = cc

  step-IsTied :
      (c : Call G) (clock : ℕ) (db : Db G)
      → IsWellFormed db
      → IsTimely clock c
      → IsTied deadline (view db)
      → IsTied deadline (view (step c db))
  step-IsTied c clock db u t tied =
      shows (IsTied deadline) c db u (effect-IsTied c clock (view db) t tied)

  honored_times-spent :
      (cs : List (Call G)) (clock : ℕ) (k : HonorKey) (db : Db G)
      → IsWellFormed db
      → AreTimely clock cs
      → IsTied deadline (view db)
      → IsSpent deadline k clock (view db)
      → honored_times k cs db ≡ 0
  unfolding honored_times
  honored_times-spent [] clock k db u t tied s = refl
  honored_times-spent (c ∷ cs) clock k db u t tied s =
      rw (commits-spent c clock k db u t.0 tied s) (
        omega (
          arith,
          honored_times-spent cs (later clock c) k (step c db) (step-IsWellFormed c db u) t.1
              (step-IsTied c clock db u t.0 tied)
              (shows (IsSpent deadline k (later clock c)) c db u
                (effect-IsSpent c clock k (view db) t.0 tied s)),
        ))

  -- From a well-formed database whose rows carry their keys' deadlines, over a history in which
  -- each key is accepted with its one deadline and the times of honors and sweeps do not run
  -- backwards, at most one honor of a key commits.
  pub honored_times-le-one :
      (cs : List (Call G)) (clock : ℕ) (k : HonorKey) (db : Db G)
      → IsWellFormed db
      → IsTied deadline (view db)
      → AreTimely clock cs
      → honored_times k cs db ≤ 1
  unfolding honored_times
  honored_times-le-one [] clock k db u tied t = omega arith
  honored_times-le-one (c ∷ cs) clock k db u tied t =
      let v = step-IsWellFormed c db u in
      let tied' = step-IsTied c clock db u t.0 tied in
      elim (Bool-cases (commits k c db)) [
        | inr later_ones ↦
            rw later_ones
              (omega (arith, honored_times-le-one cs (later clock c) k (step c db) v tied' t.1))
        | inl now_one ↦ rw now_one (
            omega (
              arith,
              honored_times-spent cs (later clock c) k (step c db) v t.1 tied' (
                  shows (IsSpent deadline k (later clock c)) c db u
                    (commits-spends c clock k db u tied now_one)),
            ))
      ]
