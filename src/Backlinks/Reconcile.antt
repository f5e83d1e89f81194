-- ===== src/Backlinks/Reconcile.antt =====
-- services/backlinks-processor/reconcile.py: the audit and repair of the backlinks collection against
-- the outlinks collection, and the queries of data/mongo_client.py that it reads them with.
pub mod Observed
pub mod Counts
pub mod Repair
pub mod Added
pub mod Unfinished
pub mod Reading
pub mod Complete
pub mod Exit
use mifolyo.Base.Texts.{same}
use mifolyo.Base.{
  ℕ, suc, ◌+◌, Bool, true, false, not, ◌&&◌, Option, none, some, String, List, [], ◌∷◌, ◌==◌,
  if◌then◌else◌,
}
use mifolyo.Base.Texts.{Text}
use mifolyo.Backlinks.Errors.{
  ◌>>=◌, Exception, Result, ok, raise, Exec, pure, throw, reconciliation_rejected,
}
use mifolyo.Backlinks.Datastore.{Datastore, Links, absent, not_list, list, Item, MongoError}
use mifolyo.Backlinks.Mongo.{
  default_batch_limits, sorted_set, strings, mongo_exception, add_backlinks,
}

-- A document as projected on `_id` and `links`; `none` is an `_id` that is no text.
pub record EdgeDocument : Type 0 where
  pub id : Option Text
  pub links : Links

-- What the iteration over a cursor gives: documents, and at their end perhaps a driver's error.
pub record Cursor : Type 0 where
  pub documents : List EdgeDocument
  pub failure : Option MongoError

pub data CountReply : Type 0 where
  counted : ℕ → CountReply
  count_error : MongoError → CountReply

-- The queries on the collections `backlinks` and `outlinks`.
pub record Collections (W : Type 0) : Type 0 where
  pub find_outlinks : W → Cursor × W
  pub find_backlinks : W → Cursor × W
  -- count_documents({"_id": …, "links": …}, limit=1)
  pub count_backlinks : (target source : Text) → W → CountReply × W
  pub count_outlinks : (source target : Text) → W → CountReply × W

pub record ReconciliationReport : Type 0 where
  pub authoritative_edges : ℕ
  pub missing_before : ℕ
  pub added : ℕ
  pub missing_after : ℕ
  pub historical_edges : ℕ
  pub extra_historical_edges : ℕ

-- What a generator yields, and the exception that it may end with.
pub data Edges : Type 0 where
  done : Edges
  edge : (target source : Text) → Edges → Edges
  fails : Exception → Edges

abbrev pub rejects : String → Edges
rejects reason = fails (reconciliation_rejected reason)

ended : Option MongoError → Edges
unfolding mongo_exception
ended none = done
ended (some e) = fails (mongo_exception e)

module _ (validate_canonical : Text → Bool) where
  -- The yields for one document's targets, and after them those of `rest`.
  target_edges : Text → List Text → Edges → Edges
  target_edges source [] rest = rest
  target_edges source (target ∷ targets) rest =
      let more = target_edges source targets rest in
      if validate_canonical target
      then edge target source more
      else rejects "outlinks_target_invalid"

  listed_edges : Text → Option (List Text) → Edges → Edges
  unfolding target_edges
  listed_edges source none rest = rejects "outlinks_target_invalid"
  listed_edges source (some links) rest = target_edges source (sorted_set links) rest

  -- `_validated_document_edges`
  document_edges : Option Text → Links → Edges → Edges
  unfolding listed_edges strings
  document_edges (some source) (list items) rest =
      if validate_canonical source
      then listed_edges source (strings items) rest
      else rejects "outlinks_source_invalid"
  document_edges _ _ rest = rejects "outlinks_document_invalid"

  -- `_authoritative_edges`
  pub authoritative_edges : List EdgeDocument → Option MongoError → Edges
  unfolding ended document_edges
  authoritative_edges [] failure = ended failure
  authoritative_edges (x ∷ xs) failure =
      document_edges x.id x.links (authoritative_edges xs failure)

  historical_sources : Text → List Text → Edges → Edges
  historical_sources target [] rest = rest
  historical_sources target (source ∷ sources) rest =
      let more = historical_sources target sources rest in
      if validate_canonical source
      then edge target source more
      else rejects "backlinks_source_invalid"

  listed_sources : Text → Option (List Text) → Edges → Edges
  unfolding historical_sources
  listed_sources target none rest = rejects "backlinks_source_invalid"
  listed_sources target (some links) rest = historical_sources target (sorted_set links) rest

  historical_document : Option Text → Links → Edges → Edges
  unfolding listed_sources strings
  historical_document (some target) (list items) rest =
      if validate_canonical target
      then listed_sources target (strings items) rest
      else rejects "backlinks_target_invalid"
  historical_document _ _ rest = rejects "backlinks_document_invalid"

  pub historical_edges : List EdgeDocument → Option MongoError → Edges
  unfolding ended historical_document
  historical_edges [] failure = ended failure
  historical_edges (x ∷ xs) failure = historical_document x.id x.links (historical_edges xs failure)

module _ {W : Type 0} where
  -- The loop of `_count_missing` and of `_count_historical`: how many edges, and how many of them
  -- `has` does not find.
  pub count_edges :
      ((target source : Text) → W → CountReply × W) → Edges → (edges missing : ℕ) → Exec W (ℕ × ℕ)
  unfolding mongo_exception
  count_edges has done n m w = pure (n, m) w
  count_edges has (fails e) n m w = throw e w
  count_edges has (edge target source rest) n m w =
      let (reply, w') = has target source w in
      elim reply [
        | counted k ↦ count_edges has rest (n + 1) (if k == 1 then m else m + 1) w'
        | count_error e ↦ throw (mongo_exception e) w'
      ]

module _ (validate_canonical : Text → Bool) {W : Type 0} (d : Datastore W) (c : Collections W) where
  pub count_missing : Exec W (ℕ × ℕ)
  unfolding authoritative_edges count_edges
  count_missing w =
      let (cursor, w') = c.find_outlinks w in
      count_edges c.count_backlinks
        (authoritative_edges validate_canonical cursor.documents cursor.failure) 0 0 w'

  pub count_historical : Exec W (ℕ × ℕ)
  unfolding historical_edges count_edges
  count_historical w =
      let (cursor, w') = c.find_backlinks w in
      count_edges (λ target source. c.count_outlinks source target)
        (historical_edges validate_canonical cursor.documents cursor.failure) 0 0 w'

  -- The repair loop of `reconcile_backlinks`, with what it has added.
  pub add_missing : Edges → ℕ → Exec W ℕ
  unfolding mongo_exception
  add_missing done added w = pure added w
  add_missing (fails e) added w = throw e w
  add_missing (edge target source rest) added w =
      let (reply, w') = c.count_backlinks target source w in
      elim reply [
        | count_error e ↦ throw (mongo_exception e) w'
        | counted k ↦ elim (k == 1) [
          | true ↦ add_missing rest added w'
          | false ↦
              let (r, w'') =
                add_backlinks d validate_canonical default_batch_limits target (source ∷ []) w' in
              elim r [ ok _ ↦ add_missing rest (added + 1) w'' | raise e ↦ throw e w'' ]
        ]
      ]

  -- `if apply and missing_before:`
  pub repair : (apply : Bool) → (missing_before : ℕ) → Exec W ℕ
  unfolding authoritative_edges add_missing
  repair apply missing_before w = elim (apply && not (missing_before == 0)) [
    | false ↦ pure 0 w
    | true ↦
        let (cursor, w') = c.find_outlinks w in
        add_missing (authoritative_edges validate_canonical cursor.documents cursor.failure) 0 w'
  ]

  abbrev pub report_of :
      (before : ℕ × ℕ) (added : ℕ) (after historical : ℕ × ℕ) → ReconciliationReport
  report_of before added after historical = record {
    authoritative_edges = before.0;
    missing_before = before.1;
    added = added;
    missing_after = after.1;
    historical_edges = historical.0;
    extra_historical_edges = historical.1;
  }

  -- The parts of `reconcile_backlinks`, each with what the parts before it have found.
  pub finish : (before : ℕ × ℕ) (added : ℕ) (after : ℕ × ℕ) → Exec W ReconciliationReport
  unfolding count_historical
  finish before added after = do
    historical ← count_historical
    pure (report_of before added after historical)

  pub recount : (before : ℕ × ℕ) (added : ℕ) → Exec W ReconciliationReport
  unfolding count_missing finish
  recount before added = do after ← count_missing; finish before added after

  pub mend : (apply : Bool) (before : ℕ × ℕ) → Exec W ReconciliationReport
  unfolding repair recount
  mend apply before = do added ← repair apply before.1; recount before added

  unfoldable pub reconcile_backlinks : (apply : Bool) → Exec W ReconciliationReport
  unfolding count_missing mend
  reconcile_backlinks apply = do before ← count_missing; mend apply before

  -- The exit code of `main`, once its client is connected: its handlers return 1.
  exit_of : Result ReconciliationReport → ℕ
  exit_of (raise e) = 1
  exit_of (ok report) = if report.missing_after == 0 then 0 else 2

  abbrev pub is_confirmed : Option Text → Text → Bool
  is_confirmed none database_name = false
  is_confirmed (some name) database_name = same name database_name

  unfoldable pub exit_code : (apply : Bool) → W → ℕ × W
  unfolding exit_of reconcile_backlinks
  exit_code apply w = let (r, w') = reconcile_backlinks apply w in (exit_of r, w')

  -- `main`, once its arguments are parsed: `--apply` needs the name of the database as
  -- `--confirm-database`, or else `parser.error` exits with 2.
  unfoldable pub main : (apply : Bool) → Option Text → Text → W → ℕ × W
  main apply confirm_database database_name w =
      if apply && not (is_confirmed confirm_database database_name)
      then (2, w)
      else exit_code apply w
