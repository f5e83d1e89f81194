-- ===== src/Backlinks/Tests/Edges.antt =====
-- Runs of the reconciler, and its theorems at concrete inputs.
use mifolyo.Backlinks.Reconcile.{main, is_confirmed}
use mifolyo.Base.{
  not, ◌||◌, some, ℕ, ◌≤◌, ◌≡◌, ◌≢◌, refl, Bool, true, false, none, some, List, [], ◌∷◌,
  if◌then◌else◌,
}
use mifolyo.Base.Texts.{Text, codes, same, contains, starts_with, less}
use mifolyo.Base.Utf8.{encode}
use mifolyo.Base.Dict
use mifolyo.Base.Dict.{Dict}
use mifolyo.Backlinks.Errors.{ok}
use mifolyo.Backlinks.Datastore.{Datastore, inserted, Document, has_item, str, list}
use mifolyo.Backlinks.Datastore.Laws.{Keeps-refl}
use mifolyo.Backlinks.Mongo.{
  sorted_set, strings, encoded_length, existing_links, new_sources, url_ok, all_ok, preflight,
  add_backlinks,
}
use mifolyo.Backlinks.Reconcile.{
  EdgeDocument, CountReply, counted, Collections, ReconciliationReport, authoritative_edges,
  reconcile_backlinks, exit_code,
}
use mifolyo.Backlinks.Reconcile.Observed.{AllEdges, IsAccurate}
use mifolyo.Backlinks.Reconcile.Exit.{
  reconcile_backlinks_repairs, report_mode_writes_nothing, exit_code-zero, main-zero,
}
use mifolyo.Backlinks.Tests.Memory.{Memory, memory, memory-IsReliable, pending, stored, add_links}

abbrev any_http : Text → Bool
any_http t = starts_with (codes "http:") t

abbrev page_a : Text
page_a = codes "http://a.io/"

abbrev page_b : Text
page_b = codes "http://b.io/"

-- The page b links to the page a, and to itself.
abbrev outlinks : List EdgeDocument
outlinks = (record { id = some page_b; links = list (str page_b ∷ str page_a ∷ []) }) ∷ []

abbrev projected : Dict Document → List EdgeDocument
projected [] = []
projected ((k, x) ∷ rest) = record { id = some x.id; links = x.links } ∷ projected rest

abbrev one_if : Bool → CountReply
one_if b = counted (if b then 1 else 0)

abbrev collections : Collections Memory
collections = record {
  find_outlinks = λ w. (record { documents = outlinks; failure = none }, w);
  find_backlinks = λ w. (record { documents = projected w.docs; failure = none }, w);
  count_backlinks = λ t s w. (one_if (stored w t s), w);
  count_outlinks = λ s t w. (one_if (same s page_b), w);
}

abbrev no_backlinks : Memory
no_backlinks = record { sets = []; docs = []; polls = 0 }

collections-IsAccurate : IsAccurate pending stored outlinks collections
collections-IsAccurate = record {
  outlinks_read = λ w e. refl;
  found_stored = λ t s w. one (stored w t s);
  missing_unstored = λ t s w k. zero_count (stored w t s) k;
  find_outlinks_keeps = λ w. Keeps-refl w;
  find_backlinks_keeps = λ w. Keeps-refl w;
  count_backlinks_keeps = λ t s w. Keeps-refl w;
  count_outlinks_keeps = λ s t w. Keeps-refl w;
}
  where
    one : (b : Bool) → one_if b ≡ counted 1 → b ≡ true
    one true h = refl
    one false h = cc

    zero_count : (b : Bool) (k : ℕ) → one_if b ≡ counted k → k ≢ 1 → b ≡ false
    zero_count false k h n = refl
    zero_count true k h n = absurd (n (cc))

abbrev the_report : ReconciliationReport
the_report = record {
  authoritative_edges = 2;
  missing_before = 2;
  added = 2;
  missing_after = 0;
  historical_edges = 2;
  extra_historical_edges = 0;
}

run_reconciles :
    (reconcile_backlinks any_http memory collections true no_backlinks).0 ≡ ok the_report
unfolding reconcile_backlinks memory same contains starts_with less encode Dict.lookup Dict.insert
    has_item strings sorted_set encoded_length existing_links new_sources url_ok all_ok preflight
    add_backlinks add_links
run_reconciles = refl

run_exits : (exit_code any_http memory collections true no_backlinks).0 ≡ 0
unfolding exit_code reconcile_backlinks memory same contains starts_with less encode Dict.lookup
    Dict.insert has_item strings sorted_set encoded_length existing_links new_sources url_ok all_ok
    preflight add_backlinks add_links
run_exits = refl

reconcile_backlinks_repairs_example :
    (the_report.missing_after ≡ 0)
    × (the_report.added ≤ the_report.missing_before)
    × AllEdges
        (λ t s.
          stored (reconcile_backlinks any_http memory collections true no_backlinks).1 t s ≡ true)
        (authoritative_edges any_http outlinks none)
reconcile_backlinks_repairs_example =
    reconcile_backlinks_repairs any_http memory collections memory-IsReliable collections-IsAccurate
      no_backlinks the_report run_reconciles

exit_code-zero_example :
    AllEdges
      (λ t s. stored (exit_code any_http memory collections true no_backlinks).1 t s ≡ true)
      (authoritative_edges any_http outlinks none)
exit_code-zero_example =
    exit_code-zero any_http memory collections memory-IsReliable collections-IsAccurate true
      no_backlinks run_exits

main_exits :
    (main any_http memory collections true (some (codes "test")) (codes "test") no_backlinks).0 ≡ 0
unfolding main exit_code reconcile_backlinks memory same contains starts_with less encode
    Dict.lookup Dict.insert has_item strings sorted_set encoded_length existing_links new_sources
    url_ok all_ok preflight add_backlinks add_links
main_exits = refl

main-zero_example :
    ((not true || is_confirmed any_http memory collections (some (codes "test")) (codes "test"))
      ≡ true)
    × AllEdges
        (λ t s.
          stored
            (main any_http memory collections true
              (some (codes "test"))
              (codes "test")
              no_backlinks).1
            t
            s
          ≡ true)
        (authoritative_edges any_http outlinks none)
main-zero_example =
    main-zero any_http memory collections memory-IsReliable collections-IsAccurate true
      (some (codes "test")) (codes "test") no_backlinks main_exits

-- A datastore in memory whose inserts are never acknowledged.
abbrev unacknowledged : Datastore Memory
unacknowledged = record memory { insert_one = λ x w. (inserted false, w) }

report_mode_writes_nothing_example :
    exit_code any_http memory collections false no_backlinks
    ≡ exit_code any_http unacknowledged collections false no_backlinks
report_mode_writes_nothing_example =
    report_mode_writes_nothing any_http memory unacknowledged collections no_backlinks
