-- ===== src/Indexer/Tests.antt =====
-- Runs of services/indexer on a Redis in memory and on datastores that agree to everything.
use mifolyo.Indexer.Scripts.{skip_claim_script}
use mifolyo.Indexer.Scripts.Stale.{stale_completion_writes_nothing}
use mifolyo.Fenced.System.{stay}
use mifolyo.Base.{◌≡◌, refl, true, false, some}
use mifolyo.Base.{[], ◌∷◌, ℕ, arith}
use mifolyo.Base.Texts.{Text, codes, same}
use mifolyo.Base.Dict.{Dict, lookup}
use mifolyo.Base.Decimal.{digits, str}
use mifolyo.Fenced.Store.{text, items, fields, Keyspace}
use mifolyo.Fenced.Store.{index_of, remove_first}
use mifolyo.Fenced.Memory.{put, delete}
use mifolyo.Fenced.Memory.{memory}
use mifolyo.Fenced.Script.{reject, answer_if, eval, seen}
use mifolyo.Fenced.Queue.{owner_value}
use mifolyo.Fenced.Queue.{lost, renew}
use mifolyo.Fenced.Spec.{Queue, queue_of, Shows}
use mifolyo.Fenced.Queue.Held.{IsHeld}
use mifolyo.Fenced.Keys.{
  identity_of, all_hex, page_prefix, page_images_prefix, key_of, parse_key, cut, is_publication_id,
  decode_url, is_ascii,
}
use mifolyo.Fenced.Session.{ok}
use mifolyo.Fenced.Session.{Session, pure, Server, eval_script, served}
use mifolyo.Fenced.Client.{Config, renew_lock}
use mifolyo.Fenced.Client.{renew_owner, acquire_owner, recover_claims}
use mifolyo.Indexer.Main.{Page, completed, Services, owner_check, conclude}
use mifolyo.Indexer.Main.{
  reconcile, analyse, index_page, after_fetch, locked_work, release_canonical, process_parsed,
  process_claim,
}
use mifolyo.Base.Utf8.{decode}
use mifolyo.Base.Base64.{encode64, decode64, letter, sextet, one_byte, two_bytes, three_bytes}
use mifolyo.Fenced.Tests.{
  in_memory, token, empty, busy, busy-IsHeld, busy_queue, busy-Shows, the_id, the_url,
}
use mifolyo.Fenced.Client.Calm.{IsCalm}
use mifolyo.Fenced.Client.Recovery.{recover_claims_finishes, IsRecovered}
use mifolyo.Fenced.History.{line}
use mifolyo.Indexer.Scripts.{indexer, indexer-IsLayout, complete_claim_script, hand_over}
use mifolyo.Indexer.Scripts.Effect.{complete_hands_over, IsReady, IsHandedOver, keys_of}
use mifolyo.Indexer.Client.{parse_page_publication_key, complete_page}
use mifolyo.Indexer.Main.{run_indexer, stopped}
use mifolyo.Indexer.Main.Completed.{process_claim_completed, IsCompleted}
use mifolyo.Indexer.Main.Exit.{run_indexer_exit, IsExit}

abbrev pub calm_server : Server Keyspace
calm_server = record {
  redis = memory;
  deliver = λ w. (served, w);
  running = λ w. (true, w);
  clock = λ w. (0, w);
  sleep = λ w. w;
}

abbrev calm : IsCalm calm_server (λ (s : Keyspace). s)
calm = record {
  delivers = λ w. refl;
  delivery_keeps = λ w. refl;
  runs = λ w. refl;
  running_keeps = λ w. refl;
  redis = in_memory;
}

recover_claims_finishes_example :
    IsRecovered indexer indexer-IsLayout calm_server
      (λ s. s)
      calm
      token
      2
      (recover_claims indexer calm_server (record { owner_token = token; connected = true }) 1)
      (record { world = busy; owner_epoch = some 2 })
      (line busy_queue)
recover_claims_finishes_example =
    recover_claims_finishes indexer indexer-IsLayout calm_server (λ s. s) calm token 2 1 busy_queue
      (record { world = busy; owner_epoch = some 2 }) refl busy-IsHeld busy-Shows (omega arith)

abbrev page_key : Text
page_key = key_of page_prefix the_id (encode64 the_url)

abbrev manifest_fields : Dict Text
manifest_fields = (codes "publication_id", the_id) ∷ (codes "normalized_url", the_url) ∷ []

-- The page is claimed, and its manifest is there.
abbrev ready : Keyspace
ready = put indexer.counter (text (str 2)) (
    put indexer.lock (text (owner_value token (str 2))) (
      put indexer.processing (items (page_key ∷ []))
        (put (key_of page_images_prefix the_id (encode64 the_url)) (fields manifest_fields) empty)))

ready-IsHeld : IsHeld indexer (owner_value token (str 2)) (str 2) ready
unfolding put same str digits
ready-IsHeld = record { lock = refl; counter = refl }

abbrev ready_queue : Queue
ready_queue = queue_of [] (page_key ∷ [])

ready-Shows : Shows indexer ready ready_queue
unfolding put same
ready-Shows = record { waiting = refl; claimed = refl }

ready-IsReady : IsReady the_id the_url (encode64 the_url) ready manifest_fields []
unfolding put same lookup encode64 letter
ready-IsReady = record {
  page = refl;
  outlinks = refl;
  manifest_found = refl;
  same_id = refl;
  same_url = refl;
  queue = refl;
}

the_claim_is_there : index_of page_key (page_key ∷ []) ≡ some 0
unfolding index_of same encode64 letter
the_claim_is_there = refl

complete_hands_over_example : IsHandedOver the_id the_url (encode64 the_url) ready_queue [] (
    seen
      (λ s. s)
      (eval memory
        (complete_claim_script
          (owner_value token (str 2))
          (str 2)
          page_key
          (keys_of the_id the_url (encode64 the_url)))
        ready))
complete_hands_over_example =
    complete_hands_over the_id the_url (encode64 the_url) ready ready_queue manifest_fields [] 0
      memory (λ s. s) in_memory ready (owner_value token (str 2)) (str 2) refl ready-IsHeld
      ready-Shows ready-IsReady the_claim_is_there

abbrev the_page : Page
the_page = record { normalized_url = the_url; html = codes "<p>hello</p>"; rendered = false }

abbrev agreeing : Services Keyspace ℕ ℕ
agreeing = record {
  get_page_data = λ k. pure (some the_page);
  get_html_data = λ p. ok (some (record { language = codes "en"; text = codes "hello" ∷ [] }));
  keywords_of = λ h u. 0;
  get_outlinks = λ k u. pure 0;
  lock_token = λ t i. t;
  acquire_canonical_lock = λ u t i. pure true;
  owns_canonical_lock = λ u t. pure true;
  release_canonical_lock = λ u t. pure true;
  save_page_artifact = λ p t o. pure true;
  replace_search_state = λ p h k o t c. pure true;
  remove_search_state = λ u t c. pure true;
}

abbrev config : Config
config = record { owner_token = token; connected = true }

abbrev owner : Session Keyspace
owner = record { world = ready; owner_epoch = some 2 }

the_page_completes :
    process_claim calm_server config agreeing page_key owner
    ≡ (ok completed, (process_claim calm_server config agreeing page_key owner).1)
unfolding process_claim process_parsed locked_work after_fetch index_page analyse reconcile conclude
    owner_check release_canonical parse_page_publication_key parse_key cut same is_publication_id
    decode_url encode64 decode64 letter sextet is_ascii one_byte two_bytes three_bytes decode
    renew_owner renew_lock eval_script eval renew lost reject answer_if complete_page hand_over put
    index_of remove_first delete str digits lookup identity_of all_hex complete_claim_script
the_page_completes = refl

process_claim_completed_example :
    IsCompleted calm_server config agreeing page_key owner
      (process_claim calm_server config agreeing page_key owner).1
process_claim_completed_example =
    process_claim_completed calm_server config agreeing page_key owner
      (process_claim calm_server config agreeing page_key owner).1 the_page_completes

-- A termination signal has arrived.
abbrev stopped_server : Server Keyspace
stopped_server = record {
  redis = memory;
  deliver = λ w. (served, w);
  running = λ w. (false, w);
  clock = λ w. (0, w);
  sleep = λ w. w;
}

the_exit :
    run_indexer stopped_server config agreeing 1 owner
    ≡ (ok (some 0), (run_indexer stopped_server config agreeing 1 owner).1)
unfolding run_indexer acquire_owner stopped
the_exit = refl

run_indexer_exit_example : IsExit stopped_server config agreeing 0
run_indexer_exit_example =
    run_indexer_exit stopped_server config agreeing 1 0 owner
      (run_indexer stopped_server config agreeing 1 owner).1 the_exit

counter_two : ready indexer.counter ≡ text (str 2)
unfolding put same
counter_two = refl

stale_completion_writes_nothing_example :
    ((eval memory
        (complete_claim_script
          (owner_value token (str 1))
          (str 1)
          page_key
          (keys_of the_id the_url (encode64 the_url)))
        ready).1
      ≡ ready)
    × ((eval memory
          (skip_claim_script
            (owner_value token (str 1))
            (str 1)
            page_key
            (keys_of the_id the_url (encode64 the_url)))
          ready).1
        ≡ ready)
stale_completion_writes_nothing_example =
    stale_completion_writes_nothing memory (λ s. s) in_memory ready ready 2 1
      (owner_value token (str 1)) page_key (keys_of the_id the_url (encode64 the_url)) counter_two
      (omega arith) (stay ready)
