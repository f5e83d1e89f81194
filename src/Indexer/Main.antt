-- ===== src/Indexer/Main.antt =====
-- The service loop of services/indexer/main.py.
pub mod Completed
pub mod Exit
use mifolyo.Base.{Bool, true, false, ◌&&◌, Option, none, some}
use mifolyo.Base.{List, [], ◌∷◌, ℕ, zero, suc, ◌-◌}
use mifolyo.Base.{ltb, ◌==◌, if◌then◌else◌}
use mifolyo.Base.Texts.{Text, codes, same}
use mifolyo.Fenced.Session.{page_decode_error, Outcome, ok, raise}
use mifolyo.Fenced.Session.{Exec, ◌>>=◌, pure, or_else, attempt, finally, Server}
use mifolyo.Fenced.Client.{Config, release_lock}
use mifolyo.Fenced.Client.{renew_owner, is_running, pause, now, acquire_owner, recover_claims}
use mifolyo.Indexer.Scripts.{indexer}
use mifolyo.Indexer.Client.{
  parse_page_publication_key, claim_page, release_page, quarantine_page, get_work_sizes,
  signal_crawler, complete_page, skip_page,
}

-- What the loop reads of a page (models/page.py) and of its analysis.
pub record Page : Type 0 where
  pub normalized_url : Text
  pub html : Text
  pub rendered : Bool

pub record Html : Type 0 where
  pub language : Text
  pub text : List Text

pub data Verdict : Type 0 where
  completed skipped quarantined transient_failure : Verdict

-- The page store, the analysis and the Mongo client that the loop calls, by what they return or raise.
pub record Services (W : Type 0) (Keywords Outlinks : Type 0) : Type 0 where
  pub get_page_data : Text → Exec W (Option Page)
  pub get_html_data : Page → Outcome (Option Html)
  pub keywords_of : Html → Text → Keywords
  pub get_outlinks : Text → Text → Exec W Outlinks
  pub lock_token : Text → Text → Text
  pub acquire_canonical_lock : Text → Text → Text → Exec W Bool
  pub owns_canonical_lock : Text → Text → Exec W Bool
  pub release_canonical_lock : Text → Text → Exec W Bool
  pub save_page_artifact : Page → Text → Exec W Bool → Exec W Bool
  pub replace_search_state : Page → Html → Keywords → Outlinks → Text → Exec W Bool → Exec W Bool
  pub remove_search_state : Text → Text → Exec W Bool → Exec W Bool

-- `html_data and html_data.get("language") == "en" and html_data.get("text")`
abbrev pub is_indexable : Html → Bool
is_indexable h = same h.language (codes "en") && elim h.text [ [] ↦ false | _ ∷ _ ↦ true ]

-- The state of the loop: whether the crawl was resumed, and when the lock was last renewed.
pub record Turn : Type 0 where
  pub resume_signal_sent : Bool
  pub last_renewal : ℕ

-- How a round ends: with an exit code, or with another round.
pub data Next : Type 0 where
  exit : ℕ → Next
  again : Turn → Next

module _ {W Keywords Outlinks : Type 0} (server : Server W) (c : Config)
    (services : Services W Keywords Outlinks) where
  -- One claimed page, under the canonical lock of its URL.
  module _ (page_key key_url token : Text) where
    -- `running and renew_owner(redis_client) and mongo_client.owns_canonical_lock(...)`
    unfoldable pub owner_check : Exec W Bool
    owner_check = is_running indexer server c >>= λ still. elim still [
      | false ↦ pure false
      | true ↦ renew_owner indexer server c >>= λ renewed. elim renewed [
        | false ↦ pure false
        | true ↦ services.owns_canonical_lock key_url token
      ]
    ]

    -- `verdict if owner_check() and action() else TRANSIENT_FAILURE`
    unfoldable pub conclude : Exec W Bool → Verdict → Exec W Verdict
    conclude action verdict = owner_check >>= λ owned. elim owned [
      | false ↦ pure transient_failure
      | true ↦ action >>= λ done. pure (if done then verdict else transient_failure)
    ]

    unfoldable pub remove_state_and_skip : Text → Exec W Verdict
    remove_state_and_skip url = owner_check >>= λ owned. elim owned [
      | false ↦ pure transient_failure
      | true ↦ or_else (services.remove_search_state url token owner_check) false >>= λ removed.
          elim removed [
            | false ↦ pure transient_failure
            | true ↦ conclude (skip_page server c page_key) skipped
          ]
    ]

    unfoldable pub reconcile : Page → Html → Outcome Outlinks → Exec W Verdict
    reconcile page h (raise _) = pure transient_failure
    reconcile page h (ok outlinks) =
        or_else
          (services.replace_search_state page h (services.keywords_of h page.normalized_url)
            outlinks token owner_check)
          false
        >>= λ reconciled. elim reconciled [
          | false ↦ pure transient_failure
          | true ↦ conclude (complete_page server c page_key page.normalized_url) completed
        ]

    unfoldable pub analyse : Page → Outcome (Option Html) → Exec W Verdict
    analyse page (raise _) = pure transient_failure
    analyse page (ok none) = remove_state_and_skip page.normalized_url
    analyse page (ok (some h)) = elim (is_indexable h) [
      | false ↦ remove_state_and_skip page.normalized_url
      | true ↦ attempt (services.get_outlinks page_key page.normalized_url) >>= λ outlinks.
          reconcile page h outlinks
    ]

    abbrev pub store_artifact : Page → Exec W Bool
    store_artifact page = elim page.rendered [
      | false ↦ pure true
      | true ↦ or_else (services.save_page_artifact page token owner_check) false
    ]

    unfoldable pub index_page : Page → Exec W Verdict
    index_page page = elim (same page.normalized_url key_url) [
      | false ↦ pure transient_failure
      | true ↦ store_artifact page >>= λ stored. elim stored [
        | false ↦ pure transient_failure
        | true ↦ analyse page (services.get_html_data page)
      ]
    ]

    -- A page that cannot be decoded or is absent is quarantined; any other failure is transient.
    unfoldable pub after_fetch : Outcome (Option Page) → Exec W Verdict
    after_fetch (ok none) = conclude (quarantine_page server c page_key) quarantined
    after_fetch (ok (some page)) = index_page page
    after_fetch (raise (page_decode_error _)) =
        conclude (quarantine_page server c page_key) quarantined
    after_fetch (raise _) = pure transient_failure

    unfoldable pub locked_work : Exec W Verdict
    locked_work = attempt (services.get_page_data page_key) >>= λ fetched. after_fetch fetched

    unfoldable pub release_canonical : Exec W Bool
    release_canonical = or_else (services.release_canonical_lock key_url token) false

  abbrev pub canonical_token : Text → Text
  canonical_token id = services.lock_token c.owner_token id

  unfoldable pub process_parsed : Text → Option (Text × Text × Text) → Exec W Verdict
  process_parsed page_key none = pure transient_failure
  process_parsed page_key (some (id, key_url, encoded)) =
      renew_owner indexer server c >>= λ renewed. elim renewed [
        | false ↦ pure transient_failure
        | true ↦
            or_else (services.acquire_canonical_lock key_url (canonical_token id) id) false
            >>= λ acquired. elim acquired [
              | false ↦ pure transient_failure
              | true ↦
                  finally (locked_work page_key key_url (canonical_token id))
                    (release_canonical page_key key_url (canonical_token id))
            ]
      ]

  unfoldable pub process_claim : Text → Exec W Verdict
  process_claim page_key = process_parsed page_key (parse_page_publication_key page_key)

  abbrev pub lock_renew_ms : ℕ
  lock_renew_ms = 10000

  -- Renews the lock when it is due; `none` if it could not be renewed.
  unfoldable pub renew_when_due : Turn → Exec W (Option Turn)
  renew_when_due t = now indexer server c >>= λ time.
      elim (ltb (time - t.last_renewal) lock_renew_ms) [
        | true ↦ pure (some t)
        | false ↦ renew_owner indexer server c >>= λ renewed. elim renewed [
          | false ↦ pure none
          | true ↦ now indexer server c >>= λ later.
              pure
                (some (record { resume_signal_sent = t.resume_signal_sent; last_renewal = later }))
        ]
      ]

  abbrev pub with_signal : Bool → Turn → Turn
  with_signal b t = record { resume_signal_sent = b; last_renewal = t.last_renewal }

  -- Resumes the crawl once while there is no work; `none` if the lock was lost.
  unfoldable pub signal_when_idle : Turn → ℕ × ℕ → Exec W (Option Turn)
  signal_when_idle t (queued, processing) = elim (queued == 0 && processing == 0) [
    | false ↦ pure (some (with_signal false t))
    | true ↦ elim t.resume_signal_sent [
      | true ↦ pure (some t)
      | false ↦ signal_crawler server c >>= λ sent.
          pure (if sent then some (with_signal true t) else none)
    ]
  ]

  -- The claim of a round: none without work, and no turn if the lock was lost.
  unfoldable pub take_claim : Turn → Exec W (Option (Turn × Option Text))
  take_claim t = get_work_sizes server c >>= λ sizes. signal_when_idle t sizes >>= λ next.
      elim next [
        | none ↦ pure none
        | some t' ↦ claim_page server c >>= λ claim. pure (some (t', claim))
      ]

  unfoldable pub after_verdict : Text → Turn → Verdict → Exec W Next
  after_verdict page_key t transient_failure = release_page server c page_key >>= λ _. pure (exit 1)
  after_verdict page_key t _ = pure (again t)

  -- A claimed value: left for the next owner, quarantined if it is no page's key, or processed.
  unfoldable pub handle_claim : Turn → Text → Exec W Next
  handle_claim t page_key = is_running indexer server c >>= λ still. elim still [
    | false ↦ pure (exit 0)
    | true ↦ elim (parse_page_publication_key page_key) [
      | none ↦ quarantine_page server c page_key >>= λ buried.
          pure (if buried then again (with_signal false t) else exit 1)
      | some _ ↦
          process_claim page_key >>= λ verdict. after_verdict page_key (with_signal false t) verdict
    ]
  ]

  unfoldable pub after_claim : Outcome (Option (Turn × Option Text)) → Exec W Next
  after_claim (raise _) = pure (exit 1)
  after_claim (ok none) = pure (exit 1)
  after_claim (ok (some (t, none))) = pause indexer server c >>= λ _. pure (again t)
  after_claim (ok (some (t, some page_key))) = handle_claim t page_key

  unfoldable pub work_round : Turn → Exec W Next
  work_round t = is_running indexer server c >>= λ still. elim still [
    | false ↦ pure (exit 0)
    | true ↦ renew_when_due t >>= λ renewed. elim renewed [
      | none ↦ pure (exit 1)
      | some t' ↦ attempt (take_claim t') >>= λ claim. after_claim claim
    ]
  ]

  -- The loop, for at most `rounds` rounds; `none` while it still runs
  unfoldable pub work_loop : ℕ → Turn → Exec W (Option ℕ)
  work_loop zero t = pure none
  work_loop (suc rounds) t = work_round t >>= λ next. elim next [
    | exit code ↦ pure (some code)
    | again t' ↦ work_loop rounds t'
  ]

  -- `0 if not running else 1`
  unfoldable pub stopped : Exec W (Option ℕ)
  stopped = is_running indexer server c >>= λ still. pure (some (if still then 1 else 0))

  unfoldable pub run_owned : ℕ → Exec W (Option ℕ)
  run_owned rounds = recover_claims indexer server c rounds >>= λ recovered. elim recovered [
    | none ↦ pure none
    | some b ↦ elim b [
      | false ↦ stopped
      | true ↦ now indexer server c >>= λ time.
          work_loop rounds (record { resume_signal_sent = false; last_renewal = time })
    ]
  ]

  unfoldable pub run_indexer : ℕ → Exec W (Option ℕ)
  run_indexer rounds = acquire_owner indexer server c rounds >>= λ acquired. elim acquired [
    | none ↦ pure none
    | some b ↦ elim b [
      | false ↦ stopped
      | true ↦ finally (run_owned rounds) (or_else (release_lock indexer server c) false)
    ]
  ]
