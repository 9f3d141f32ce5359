-- ===== src/Examples/TestnetLoop/Rows.antt =====
-- The rows of the ledger of the testnet loop (examples/testnet-loop/loop.ts): their numbers, and the UPDATE of the
-- catch.
use exfer_honor.Base.{
  ℕ, suc, ◌+◌, ◌≤◌, ◌<◌, ◌≡◌, refl, sym, ap, ◌∙◌, Bool, false, ◌&&◌, List, [], ◌∷◌, ◌++◌, arith,
  All, ◌==◌, if◌then◌else◌,
}
use mathlib.Core.List.{append-nil}
use exfer_honor.Store.Table.{update, count_if}
use exfer_honor.Examples.TestnetLoop.{Iteration, max_seq, is_open, fail_row, fail_open_row}
use exfer_honor.Examples.TestnetLoop.Row.{is_honored}

abbrev pub IsClosed : Iteration → Type 0
IsClosed r = is_open r.honor_status ≡ false

abbrev pub honored_rows : List Iteration → ℕ
honored_rows = count_if (λ r. is_honored r.honor_status)

below_later :
    (n m : ℕ) (rows : List Iteration)
    → n ≤ m
    → All (λ x. x.seq < n) rows
    → All (λ x. x.seq < m) rows
below_later n m [] le h = tt
below_later n m (r ∷ rows) le h = (omega (arith, h.0), below_later n m rows le h.1)

pub below_next : (rows : List Iteration) → All (λ x. x.seq < suc (max_seq rows)) rows
unfolding max_seq
below_next [] = tt
below_next (r ∷ rows) = (
  ground arith,
  below_later (suc (max_seq rows)) (suc (max_seq (r ∷ rows))) rows (ground arith) (below_next rows),
)

max_seq-last :
    (n : ℕ) (old : List Iteration) (r : Iteration)
    → All (λ x. x.seq < n) old
    → r.seq ≡ n
    → max_seq (old ++ r ∷ []) ≡ n
unfolding max_seq
max_seq-last n [] r h e = ground arith
max_seq-last n (x ∷ old) r h e = ground (arith, max_seq-last n old r h.1 e)

-- An UPDATE of open rows leaves closed ones alone.
update_closed :
    (q : Iteration → Bool) (f : Iteration → Iteration) (rows rest : List Iteration)
    → All IsClosed rows
    → update (λ r. q r && is_open r.honor_status) f (rows ++ rest)
      ≡ rows ++ update (λ r. q r && is_open r.honor_status) f rest
unfolding update
update_closed q f [] rest h = refl
update_closed q f (r ∷ rows) rest h = ground (arith, update_closed q f rows rest h.1)

-- What the catch makes of the last row.
abbrev pub failed_last : Iteration → Iteration
failed_last r = if is_open r.honor_status then fail_row r else r

pub fail_open_row-last :
    (n : ℕ) (old : List Iteration) (r : Iteration)
    → All IsClosed old
    → All (λ x. x.seq < n) old
    → r.seq ≡ n
    → fail_open_row (old ++ r ∷ []) ≡ old ++ failed_last r ∷ []
unfolding fail_open_row update
fail_open_row-last n old r closed below e =
    update_closed (λ x. x.seq == max_seq (old ++ r ∷ [])) fail_row old (r ∷ []) closed
    ∙ ground (arith, max_seq-last n old r below e)

pub fail_open_row-closed : (old : List Iteration) → All IsClosed old → fail_open_row old ≡ old
unfolding fail_open_row update
fail_open_row-closed old closed =
    ap (update (λ r. r.seq == max_seq old && is_open r.honor_status) fail_row)
      (sym (append-nil old))
    ∙ update_closed (λ x. x.seq == max_seq old) fail_row old [] closed
    ∙ append-nil old

pub honored_rows-append :
    (rows more : List Iteration)
    → honored_rows (rows ++ more) ≡ honored_rows rows + honored_rows more
unfolding count_if
honored_rows-append [] more = omega arith
honored_rows-append (r ∷ rows) more = ground (arith, honored_rows-append rows more)

pub failed_last-closed : (r : Iteration) → IsClosed (failed_last r)
failed_last-closed r = ground arith

pub failed_last-unhonored :
    (r : Iteration)
    → is_honored r.honor_status ≡ false
    → is_honored (failed_last r).honor_status ≡ false
failed_last-unhonored r h = ground arith
