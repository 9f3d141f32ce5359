-- ===== src/Examples/Merchant/Issues.antt =====
-- How many keys the merchant of src/examples/merchant/merchant.ts issues for a quote.
use exfer_honor.Base.{
  ◌+◌, ◌≤◌, ◌≡◌, refl, ◌∙◌, Bool, true, text_eq_refl, Option, none, some, List, [], ◌∷◌, ◌++◌,
  arith, if◌then◌else◌,
}
use exfer_honor.Spec.Types.{DeliverContext}
use exfer_honor.Store.Table.{first, count_if}
use exfer_honor.Store.Sqlite.{insert_unless}
use exfer_honor.Examples.Merchant.{Goods, of_key, issue, api_key_count}

count_if-append :
    {A : Type 0} (p : A → Bool) (rows : List A) (r : A)
    → count_if p (rows ++ r ∷ []) ≡ count_if p rows + (if p r then 1 else 0)
unfolding count_if
count_if-append p [] r = ground arith
count_if-append p (x ∷ rows) r = ground (arith, count_if-append p rows r)

count_if-first-none :
    {A : Type 0} (p : A → Bool) (rows : List A) → first p rows ≡ none → count_if p rows ≡ 0
unfolding count_if first
count_if-first-none p [] h = refl
count_if-first-none p (x ∷ rows) h = ground (arith, count_if-first-none p rows)

count_if-first-some :
    {A : Type 0} (p : A → Bool) (rows : List A) (r : A)
    → first p rows ≡ some r
    → 1 ≤ count_if p rows
unfolding count_if first
count_if-first-some p [] r h = absurd (ground arith)
count_if-first-some p (x ∷ rows) r h = ground (arith, count_if-first-some p rows r)

insert_unless-once :
    {A : Type 0} (p : A → Bool) (rows : List A) (r : A) (o : Option A)
    → first p rows ≡ o
    → p r ≡ true
    → count_if p rows ≤ 1
    → count_if p (insert_unless o r rows) ≡ 1
insert_unless-once p rows r none h own le =
    count_if-append p rows r ∙ ground (arith, count_if-first-none p rows h)
insert_unless-once p rows r (some s) h own le = omega (arith, count_if-first-some p rows s h)

-- Where a quote has at most one key, it has exactly one after a delivery, also after a repeated one.
pub api_key_count-issue :
    (ctx : DeliverContext) (goods : Goods)
    → api_key_count ctx.key.quote_id goods ≤ 1
    → api_key_count ctx.key.quote_id (issue ctx goods) ≡ 1
unfolding api_key_count issue
api_key_count-issue ctx goods h =
    insert_unless-once (of_key ctx.key.quote_id) goods.api_keys _
      (first (of_key ctx.key.quote_id) goods.api_keys) refl (text_eq_refl ctx.key.quote_id) h
