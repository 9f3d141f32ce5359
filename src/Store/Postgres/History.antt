-- ===== src/Store/Postgres/History.antt =====
-- Histories of a `PostgresStore` (src/adapters/postgres-store.ts) over links that may fail: the calls in
-- the order in which the server serializes them.
use exfer_honor.Base.{
  ℕ, ◌+◌, ◌≤◌, ◌≡◌, refl, ap, ◌∙◌, Bool, true, false, ◌&&◌, Text, Option, none, some, List, [], ◌∷◌,
  arith, if◌then◌else◌,
}
use exfer_honor.Spec.Types.{AcceptedQuote, Outpoint, HonorKey}
use exfer_honor.Spec.Errors.{Thrown, Result, ok, throw}
use exfer_honor.Ports.Store.{HonorTxnInput}
use exfer_honor.Store.Contract.{same_key}
use exfer_honor.Store.Sqlite.{input_key}
use exfer_honor.Store.Sqlite.View.{IsWellFormed}
use exfer_honor.Store.Sqlite.History.{Call, is_ok, step, commits, honored_times}
use exfer_honor.Store.Contract.Once.{IsTied}
use exfer_honor.Store.Sqlite.History.Once.{AreTimely, honored_times-le-one}
use exfer_honor.Store.Postgres as Pg
use exfer_honor.Store.Postgres.{PgDb, CommitEnd, Link, closed, begun}
use exfer_honor.Store.Postgres.Sync.{
  sqlite_db, sync_input, sqlite_db-upsert_accepted, sqlite_db-mark_observed,
  sqlite_db-reserve_claim,
}
use exfer_honor.Store.Postgres.Honors.{sound_link, pg_view, sqlite_end-run_honor_txn}
use exfer_honor.Store.Postgres.Reads.{sweep-sqlite_db}

pub data PgCall (G : Type 0) : Type 0 where
  accepts : AcceptedQuote → (accepted_at retain_until : ℕ) → PgCall G
  observes : HonorKey → (now : ℕ) → PgCall G
  reserves : HonorKey → Outpoint → Text → PgCall G
  honors : Link → HonorTxnInput G → PgCall G
  sweeps : Link → (now : ℕ) → PgCall G

abbrev takes : Option Thrown → Option Thrown → CommitEnd → Bool
takes (some e) begin commit = false
takes none (some e) commit = false
takes none none CommitEnd.taken = true
takes none none (CommitEnd.not_taken e) = false
takes none none (CommitEnd.answer_lost e) = true

-- The server takes the COMMIT of a transaction that reaches it, whether or not the answer comes back.
abbrev pub is_taken : Link → Bool
is_taken link = takes link.connect link.begin link.commit

module _ {G : Type 0} where
  unfoldable pub pg_step : PgCall G → PgDb G → PgDb G
  pg_step (PgCall.accepts a at retain_until) db = Pg.upsert_accepted a at retain_until db
  pg_step (PgCall.observes k now) db = Pg.mark_observed_before_expiry k now db
  pg_step (PgCall.reserves k o claim_tx_id) db = Pg.reserve_claim_outpoint k o claim_tx_id db
  pg_step (PgCall.honors link arg) db = (Pg.run_honor_txn link arg db).1
  pg_step (PgCall.sweeps link now) db = (Pg.sweep link now db).1

  -- Whether the server keeps an honor of a key, whatever the caller is told.
  unfoldable pub pg_commits : HonorKey → PgCall G → PgDb G → Bool
  pg_commits k (PgCall.honors link arg) db =
      is_taken link && (same_key (input_key arg) k && is_ok (Pg.run_honor_txn sound_link arg db).0)
  pg_commits k _ db = false

  unfoldable pub pg_honored_times : HonorKey → List (PgCall G) → PgDb G → ℕ
  pg_honored_times k [] db = 0
  pg_honored_times k (c ∷ cs) db =
      (if pg_commits k c db then 1 else 0) + pg_honored_times k cs (pg_step c db)

  -- The calls that reach the tables, as calls of the other store.
  abbrev pub sync_calls : List (PgCall G) → List (Call G)
  sync_calls [] = []
  sync_calls (PgCall.accepts a at retain_until ∷ cs) =
      Call.accepts a at retain_until ∷ sync_calls cs
  sync_calls (PgCall.observes k now ∷ cs) = Call.observes k now ∷ sync_calls cs
  sync_calls (PgCall.reserves k o claim_tx_id ∷ cs) = Call.reserves k o claim_tx_id ∷ sync_calls cs
  sync_calls (PgCall.honors link arg ∷ cs) =
      if is_taken link then Call.honors (sync_input arg) ∷ sync_calls cs else sync_calls cs
  sync_calls (PgCall.sweeps link now ∷ cs) =
      if is_taken link then Call.sweeps now ∷ sync_calls cs else sync_calls cs

  closed-lost :
      {A : Type 0} (db : PgDb G) (p : Result A × PgDb G) (e : Thrown)
      → (closed (CommitEnd.answer_lost e) db p).1 ≡ (closed CommitEnd.taken db p).1
  closed-lost db (ok a, after) e = refl
  closed-lost db (throw f, after) e = refl

  closed-not_taken :
      {A : Type 0} (db : PgDb G) (p : Result A × PgDb G) (e : Thrown)
      → (closed (CommitEnd.not_taken e) db p).1 ≡ db
  closed-not_taken db (ok a, after) e = refl
  closed-not_taken db (throw f, after) e = refl

  -- What a transaction leaves is decided by whether it is taken.
  begun-takes :
      {A : Type 0} (connect begin : Option Thrown) (commit : CommitEnd) (db : PgDb G)
      (p : Result A × PgDb G)
      → (begun connect begin commit db p).1
        ≡ (if takes connect begin commit then (closed CommitEnd.taken db p).1 else db)
  begun-takes (some e) begin commit db p = refl
  begun-takes none (some e) commit db p = refl
  begun-takes none none CommitEnd.taken db p = refl
  begun-takes none none (CommitEnd.not_taken e) db p = closed-not_taken db p e
  begun-takes none none (CommitEnd.answer_lost e) db p = closed-lost db p e

  run_honor_txn-taken :
      (link : Link) (arg : HonorTxnInput G) (db : PgDb G)
      → (Pg.run_honor_txn link arg db).1
        ≡ (if is_taken link then (Pg.run_honor_txn sound_link arg db).1 else db)
  unfolding Pg.run_honor_txn
  run_honor_txn-taken link arg db = begun-takes link.connect link.begin link.commit db _

  sweep-taken :
      (link : Link) (now : ℕ) (db : PgDb G)
      → (Pg.sweep link now db).1 ≡ (if is_taken link then (Pg.sweep sound_link now db).1 else db)
  unfolding Pg.sweep
  sweep-taken link now db = begun-takes link.connect link.begin link.commit db _

  module _ (k : HonorKey) (cs : List (PgCall G))
      (rest : (db : PgDb G)
        → pg_honored_times k cs db ≡ honored_times k (sync_calls cs) (sqlite_db db)) where
    honors-sync :
        (arg : HonorTxnInput G) (db : PgDb G) (b : Bool)
        → (if b && (same_key (input_key arg) k && is_ok (Pg.run_honor_txn sound_link arg db).0)
              then 1
              else 0)
            + pg_honored_times k cs (if b then (Pg.run_honor_txn sound_link arg db).1 else db)
          ≡ honored_times k
              (if b then Call.honors (sync_input arg) ∷ sync_calls cs else sync_calls cs)
              (sqlite_db db)
    unfolding honored_times step commits
    honors-sync arg db true =
        ap (λ n. kept_once (Pg.run_honor_txn sound_link arg db).0 + n) (rest _)
        ∙ ap (λ p. kept_once p.0 + honored_times k (sync_calls cs) p.1)
            (sqlite_end-run_honor_txn arg db)
      where
        kept_once : Result (Unit {0}) → ℕ
        kept_once r = if same_key (input_key arg) k && is_ok r then 1 else 0
    honors-sync arg db false = omega (arith, rest db)

    sweeps-sync :
        (now : ℕ) (db : PgDb G) (b : Bool)
        → 0 + pg_honored_times k cs (if b then (Pg.sweep sound_link now db).1 else db)
          ≡ honored_times k
              (if b then Call.sweeps now ∷ sync_calls cs else sync_calls cs)
              (sqlite_db db)
    unfolding honored_times step commits
    sweeps-sync now db true =
        ap (λ n. 0 + n) (rest _)
        ∙ ap (λ p. 0 + honored_times k (sync_calls cs) p.1) (sweep-sqlite_db now db)
    sweeps-sync now db false = omega (arith, rest db)

  -- A history over failing links honors a key as often as the calls that are taken do over the same rows.
  honored_times-sync_calls :
      (k : HonorKey) (cs : List (PgCall G)) (db : PgDb G)
      → pg_honored_times k cs db ≡ honored_times k (sync_calls cs) (sqlite_db db)
  unfolding pg_honored_times honored_times pg_step step pg_commits commits
  honored_times-sync_calls k [] db = refl
  honored_times-sync_calls k (PgCall.accepts a at retain_until ∷ cs) db =
      ap (λ n. 0 + n) (honored_times-sync_calls k cs _)
      ∙ ap (λ d. 0 + honored_times k (sync_calls cs) d)
          (sqlite_db-upsert_accepted a at retain_until db)
  honored_times-sync_calls k (PgCall.observes j now ∷ cs) db =
      ap (λ n. 0 + n) (honored_times-sync_calls k cs _)
      ∙ ap (λ d. 0 + honored_times k (sync_calls cs) d) (sqlite_db-mark_observed j now db)
  honored_times-sync_calls k (PgCall.reserves j o claim_tx_id ∷ cs) db =
      ap (λ n. 0 + n) (honored_times-sync_calls k cs _)
      ∙ ap (λ d. 0 + honored_times k (sync_calls cs) d) (sqlite_db-reserve_claim j o claim_tx_id db)
  honored_times-sync_calls k (PgCall.honors link arg ∷ cs) db =
      ap
        (λ d. (if pg_commits k (PgCall.honors link arg) db then 1 else 0) + pg_honored_times k cs d)
        (run_honor_txn-taken link arg db)
      ∙ honors-sync k cs (honored_times-sync_calls k cs) arg db (is_taken link)
  honored_times-sync_calls k (PgCall.sweeps link now ∷ cs) db =
      ap (λ d. 0 + pg_honored_times k cs d) (sweep-taken link now db)
      ∙ sweeps-sync k cs (honored_times-sync_calls k cs) now db (is_taken link)

  -- From a well-formed Postgres database whose rows carry their keys' deadlines, at most one honor of a key is
  -- kept, whichever links fail and whatever their callers are told; the calls that are taken accept each
  -- key with its one deadline and carry times that do not run backwards.
  pub pg_honored_times-le-one :
      (deadline : HonorKey → ℕ) (cs : List (PgCall G)) (clock : ℕ) (k : HonorKey) (db : PgDb G)
      → IsWellFormed (sqlite_db db)
      → IsTied deadline (pg_view db)
      → AreTimely deadline clock (sync_calls cs)
      → pg_honored_times k cs db ≤ 1
  pg_honored_times-le-one deadline cs clock k db u tied t = omega (
    arith,
    honored_times-sync_calls k cs db,
    honored_times-le-one deadline (sync_calls cs) clock k (sqlite_db db) u tied t,
  )
