-- ===== src/Indexer/Client.antt =====
-- The Redis client of services/indexer/data/redis_client.py.
use mifolyo.Base.{Bool, true, false, not, ◌&&◌, ◌||◌, Option, none, some}
use mifolyo.Base.{ℕ}
use mifolyo.Base.{◌==◌, if◌then◌else◌}
use mifolyo.Base.Texts.{Text, codes, same}
use mifolyo.Fenced.Store.{lpush}
use mifolyo.Fenced.Script.{Script, done, integer}
use mifolyo.Fenced.Keys.{
  page_prefix, outlinks_prefix, page_images_prefix, key_of, parse_key, is_empty,
}
use mifolyo.Fenced.Session.{invalid_key}
use mifolyo.Fenced.Session.{Exec, ◌>>=◌, ◌>>◌, pure, throw, or_else, Server, eval_script}
use mifolyo.Fenced.Client.{
  Config, require_client, with_owner, renew_lock, claim_value, recover_batch,
}
use mifolyo.Fenced.Client.{release_value, quarantine_value, work_sizes}
use mifolyo.Indexer.Scripts.{indexer, Publication, complete_claim_script, skip_claim_script}

abbrev pub dead_letter_max_entries : ℕ
dead_letter_max_entries = 1000

-- `validate_redis_auth`: whether the constructor raises ValueError.
unfoldable pub validate_redis_auth : Text → Text → Bool → Bool
validate_redis_auth username password allow_insecure =
    (not (is_empty username) && is_empty password) || (is_empty password && not allow_insecure)

-- The id, the URL and the encoding of a page's key.
unfoldable pub parse_page_publication_key : Text → Option (Text × Text × Text)
parse_page_publication_key page_key = parse_key page_prefix page_key

-- The keys that belong to a page's key.
abbrev pub publication_of : Text → Text × Text × Text → Publication
publication_of page_key (id, url, encoded) = record {
  page = page_key;
  outlinks = key_of outlinks_prefix id encoded;
  manifest = key_of page_images_prefix id encoded;
  publication_id = id;
  normalized_url = url;
}

module _ {W : Type 0} (server : Server W) (c : Config) where
  unfoldable pub claim_page : Exec W (Option Text)
  claim_page = claim_value indexer server c

  unfoldable pub recover_abandoned_claims : ℕ → Exec W ℕ
  recover_abandoned_claims limit = recover_batch indexer server c limit

  unfoldable pub release_page : Text → Exec W Bool
  release_page page_key = or_else (release_value indexer server c page_key) false

  unfoldable pub quarantine_page : Text → Exec W Bool
  quarantine_page value =
      or_else (quarantine_value indexer server c value dead_letter_max_entries) false

  unfoldable pub get_work_sizes : Exec W (ℕ × ℕ)
  get_work_sizes = work_sizes indexer server c

  -- LPUSH of the signal that resumes the crawl, if the lock is still held
  abbrev pub push_signal : Bool → Exec W Bool
  push_signal false = pure false
  push_signal true = do
    pushed ←
        eval_script server
          (integer (lpush (codes "signal_queue") (codes "RESUME_CRAWL")) (λ n. done n))
    pure (not (pushed == 0))

  unfoldable pub signal_crawler : Exec W Bool
  signal_crawler = do
    require_client indexer server c
    renewed ← renew_lock indexer server c
    push_signal renewed

  -- The script runs if the key is read and, for a completed page, has the page's URL.
  abbrev pub finish_parsed :
      (Text → Text → Text → Publication → Script ℕ)
      → (Text → Bool)
      → Text
      → Option (Text × Text × Text)
      → Exec W Bool
  finish_parsed script fits page_key none =
      throw (invalid_key "queue value is not a page publication key")
  finish_parsed script fits page_key (some (id, url, encoded)) =
      if fits url
      then (do
        require_client indexer server c
        finished ← with_owner indexer server c (λ owner epoch.
            eval_script server
              (script owner epoch page_key (publication_of page_key (id, url, encoded))))
        pure (finished == 1))
      else pure false

  unfoldable pub complete_page : Text → Text → Exec W Bool
  complete_page page_key normalized_url =
      or_else
        (finish_parsed complete_claim_script (λ url. same url normalized_url) page_key
          (parse_page_publication_key page_key))
        false

  unfoldable pub skip_page : Text → Exec W Bool
  skip_page page_key =
      or_else
        (finish_parsed skip_claim_script (λ _. true) page_key (parse_page_publication_key page_key))
        false
