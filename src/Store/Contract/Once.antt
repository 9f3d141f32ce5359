-- ===== src/Store/Contract/Once.antt =====
-- Over the contract: once a key is honored, no operation makes it honorable again, as long as its
-- retention deadline is one and the same in every acceptance and times do not run backwards.
use exfer_honor.Base.{
  ℕ, ◌≤◌, ◌≡◌, refl, true, ◌&&◌, some, arith, ltb, Bool-cases, Option-cases, inl, inr, ◌⊎◌,
}
use exfer_honor.Spec.Types.{AcceptedQuote, Outpoint, HonorKey}
use exfer_honor.Spec.Errors.{Thrown, Result, ok, throw}
use exfer_honor.Ports.Store.{SeenRow, Delivery, HonorTxnInput}
use exfer_honor.Store.Contract.Answers.{honor-cases}
use exfer_honor.Store.Contract.{
  Gate, same_key, same_key_iff, quote_key, accept, observe, reserve, arg_key, honor, swept,
  honored_gate, locked_row,
}

-- `deadline` is when the retention of each key ends.
module _ {G : Type 0} (deadline : HonorKey → ℕ) where
  abbrev pub IsTied : Gate G → Type 0
  IsTied g = (k : HonorKey) (r : SeenRow) → g.row k ≡ some r → r.retain_until ≡ deadline k

  abbrev pub IsSpent : HonorKey → ℕ → Gate G → Type 0
  IsSpent k clock g =
      (deadline k ≤ clock)
      ⊎ ((r : SeenRow) × (t : ℕ) × (g.row k ≡ some r) × (r.honored_at ≡ some t))

  pub accept-IsTied :
      (a : AcceptedQuote) (at : ℕ) (g : Gate G)
      → IsTied g
      → IsTied (accept a at (deadline (quote_key a)) g)
  accept-IsTied a at g tied k r h = elim (Option-cases (g.row (quote_key a))) [
    | inl fresh ↦ ground (arith, tied k r, same_key_iff (quote_key a) k)
    | inr (old, known) ↦ ground (arith, tied k r)
  ]

  pub accept-IsSpent :
      (a : AcceptedQuote) (at retain clock : ℕ) (k : HonorKey) (g : Gate G)
      → IsSpent k clock g
      → IsSpent k clock (accept a at retain g)
  accept-IsSpent a at retain clock k g (inl late) = inl late
  accept-IsSpent a at retain clock k g (inr (r, t, h, done)) =
      elim (Option-cases (g.row (quote_key a))) [
        | inl fresh ↦ inr (r, t, ground (arith, same_key_iff (quote_key a) k), done)
        | inr (old, known) ↦ inr (r, t, ground arith, done)
      ]

  pub observe-IsTied : (j : HonorKey) (now : ℕ) (g : Gate G) → IsTied g → IsTied (observe j now g)
  observe-IsTied j now g tied k r h = elim (Option-cases (g.row j)) [
    | inl gone ↦ ground (arith, tied k r)
    | inr (old, known) ↦ ground (arith, tied k r, tied j old, same_key_iff j k)
  ]

  pub observe-IsSpent :
      (j : HonorKey) (now clock : ℕ) (k : HonorKey) (g : Gate G)
      → IsSpent k clock g
      → IsSpent k clock (observe j now g)
  observe-IsSpent j now clock k g (inl late) = inl late
  observe-IsSpent j now clock k g (inr (r, t, h, done)) = elim (Option-cases (g.row j)) [
    | inl gone ↦ inr (r, t, ground arith, done)
    | inr (old, known) ↦ elim (Bool-cases (same_key j k && ltb now old.expires_at)) [
      | inl hit ↦
          inr
            (record r { observed_before_expiry = true }, t, ground (arith, same_key_iff j k), done)
      | inr miss ↦ inr (r, t, ground arith, done)
    ]
  ]

  pub swept-IsTied : (now : ℕ) (g : Gate G) → IsTied g → IsTied (swept now g)
  swept-IsTied now g tied k r h = ground (arith, tied k r, Option-cases (g.row k))

  -- A sweep drops a row only after its deadline.
  pub swept-IsSpent :
      (now clock : ℕ) (k : HonorKey) (g : Gate G)
      → IsTied g
      → clock ≤ now
      → IsSpent k clock g
      → IsSpent k now (swept now g)
  swept-IsSpent now clock k g tied later (inl late) = inl (omega arith)
  swept-IsSpent now clock k g tied later (inr (r, t, h, done)) =
      elim (Bool-cases (ltb r.retain_until now)) [
        | inl old ↦ inl (ground (arith, tied k r h))
        | inr young ↦ inr (r, t, ground arith, done)
      ]

  module _ (after_deliver : Delivery → Result (Unit {0})) (arg : HonorTxnInput G) (g : Gate G)
      (tied : IsTied g) where
    pub honor-IsTied : IsTied (honor after_deliver arg g).1
    honor-IsTied k r h = elim (honor-cases after_deliver arg g) [
      | inl (e, same) ↦ tied k r (rw same at h)
      | inr (old, known, open_row, free, e) ↦
          let shown : (honored_gate arg old g.goods g).row k ≡ some r = rw e at h in
          ground (arith, tied (arg_key arg) old known, same_key_iff (arg_key arg) k, tied k r)
    ]

    -- A key that is spent is not honored again.
    pub honor-spent :
        (clock : ℕ)
        → clock ≤ arg.now
        → IsSpent (arg_key arg) clock g
        → (e : Thrown) × (honor after_deliver arg g ≡ (throw e, g))
    honor-spent clock later spent = elim (honor-cases after_deliver arg g) [
      | inl fails ↦ fails
      | inr (r, known, open_row, free, e) ↦ elim spent [
        | inl late ↦ absurd (ground (arith, tied (arg_key arg) r known))
        | inr (old, t, h, done) ↦ absurd (ground arith)
      ]
    ]

    -- An honor spends its own key, and leaves spent keys spent.
    pub honor-IsSpent :
        (clock : ℕ) (k : HonorKey)
        → IsSpent k clock g
        → IsSpent k clock (honor after_deliver arg g).1
    honor-IsSpent clock k (inl late) = inl late
    honor-IsSpent clock k (inr (r, t, h, done)) = elim (honor-cases after_deliver arg g) [
      | inl (e, same) ↦ inr (r, t, rw same h, done)
      | inr (old, known, open_row, free, e) ↦ elim (Bool-cases (same_key (arg_key arg) k)) [
        | inl hit ↦ inr (locked_row arg.now arg.outpoint old, arg.now, rw e (ground arith), refl)
        | inr miss ↦ inr (r, t, rw e (ground arith), done)
      ]
    ]

    pub honor-spends :
        (clock : ℕ)
        → (honor after_deliver arg g).0 ≡ ok tt
        → IsSpent (arg_key arg) clock (honor after_deliver arg g).1
    honor-spends clock h = elim (honor-cases after_deliver arg g) [
      | inl (e, same) ↦ absurd (ground arith)
      | inr (old, known, open_row, free, e) ↦ inr (
        locked_row arg.now arg.outpoint old,
        arg.now,
        rw e (ground (arith, same_key_iff (arg_key arg) (arg_key arg))),
        refl,
      )
    ]

  -- A reservation leaves the rows alone.
  pub reserve-IsTied :
      (j : HonorKey) (o : Outpoint) (retain : ℕ) (g : Gate G)
      → IsTied g
      → IsTied (reserve j o retain g)
  reserve-IsTied j o retain g tied k r h = ground (arith, tied k r, Option-cases (g.holding o))

  pub reserve-IsSpent :
      (j : HonorKey) (o : Outpoint) (retain clock : ℕ) (k : HonorKey) (g : Gate G)
      → IsSpent k clock g
      → IsSpent k clock (reserve j o retain g)
  reserve-IsSpent j o retain clock k g (inl late) = inl late
  reserve-IsSpent j o retain clock k g (inr (r, t, h, done)) =
      inr (r, t, ground (arith, Option-cases (g.holding o)), done)

  pub IsSpent-later :
      (clock now : ℕ) (k : HonorKey) (g : Gate G)
      → clock ≤ now
      → IsSpent k clock g
      → IsSpent k now g
  IsSpent-later clock now k g h (inl late) = inl (omega arith)
  IsSpent-later clock now k g h (inr spent) = inr spent
