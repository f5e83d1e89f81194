-- ===== src/Image/Client.antt =====
-- The Redis client of services/image-indexer/data/redis_client.py.
use mifolyo.Base.{Bool, false, Option, none, some}
use mifolyo.Base.{List, [], ◌∷◌, ℕ}
use mifolyo.Base.{length, ◌==◌, if◌then◌else◌}
use mifolyo.Base.Texts.{Text, same}
use mifolyo.Base.Decimal.{str}
use mifolyo.Fenced.Queue.{claim}
use mifolyo.Fenced.Keys.{
  page_images_prefix, image_prefix, parse_key, cut, is_publication_id, decode_url,
}
use mifolyo.Fenced.Session.{Exec, ◌>>=◌, ◌>>◌, pure, or_else, Server, eval_script}
use mifolyo.Fenced.Client.{
  Config, require_client, with_owner, acquire_lock, renew_lock, release_lock, claim_value,
  recover_batch,
}
use mifolyo.Fenced.Client.{
  release_value, quarantine_value, work_sizes, acquire_owner, recover_claims,
}
use mifolyo.Image.Scripts.{images, Manifest, ack_script}

abbrev pub dead_letter_max_entries : ℕ
dead_letter_max_entries = 1000

-- The id, the URL and the encoding of a manifest's key.
unfoldable pub parse_manifest_key : Text → Option (Text × Text × Text)
parse_manifest_key manifest_key = parse_key page_images_prefix manifest_key

abbrev pub both_urls : Text → Option Text → Option Text → Option (Text × Text × Text)
both_urls id (some page_url) (some source_url) = some (id, page_url, source_url)
both_urls id _ _ = none

abbrev pub urls_of : Text → Option (Text × Text) → Option (Text × Text × Text)
urls_of id none = none
urls_of id (some (page, source)) = both_urls id (decode_url page) (decode_url source)

abbrev pub identified : Option (Text × Text) → Option (Text × Text × Text)
identified none = none
identified (some (id, rest)) = if is_publication_id id then urls_of id (cut rest) else none

abbrev pub payload_parts : Option (Text × Text) → Option (Text × Text × Text)
payload_parts none = none
payload_parts (some (head, rest)) = if same head image_prefix then identified (cut rest) else none

-- The id, the page's URL and the image's URL of a payload's key.
unfoldable pub parse_payload_key : Text → Option (Text × Text × Text)
parse_payload_key payload_key = payload_parts (cut payload_key)

-- What is loaded for one page.
pub record Image : Type 0 where
  pub source_url : Text
  pub page_url : Text
  pub alt : Text

pub record ImageWork : Type 0 where
  pub manifest_key : Text
  pub publication_id : Text
  pub page_url : Text
  pub payload_keys : List Text
  pub images : List Image
  pub serialized_keys : Text

unfoldable pub payload_values : List Image → List Text
payload_values [] = []
payload_values (i ∷ is) = i.source_url ∷ i.alt ∷ payload_values is

abbrev pub manifest_of : ImageWork → Manifest
manifest_of work = record {
  key = work.manifest_key;
  image_keys = work.serialized_keys;
  image_count = str (length work.payload_keys);
  publication_id = work.publication_id;
  normalized_url = work.page_url;
}

module _ {W : Type 0} (server : Server W) (c : Config) where
  unfoldable pub image_acquire_lock : Exec W Bool
  image_acquire_lock = acquire_lock images server c

  unfoldable pub image_renew_lock : Exec W Bool
  image_renew_lock = renew_lock images server c

  unfoldable pub image_release_lock : Exec W Bool
  image_release_lock = release_lock images server c

  unfoldable pub claim_manifest : Exec W (Option Text)
  claim_manifest = claim_value images server c

  unfoldable pub recover_claims_batch : ℕ → Exec W ℕ
  recover_claims_batch limit = recover_batch images server c limit

  unfoldable pub release_claim : Text → Exec W Bool
  release_claim claim = release_value images server c claim

  unfoldable pub quarantine_claim : Text → Exec W Bool
  quarantine_claim claim = quarantine_value images server c claim dead_letter_max_entries

  unfoldable pub get_image_work_sizes : Exec W (ℕ × ℕ)
  get_image_work_sizes = work_sizes images server c

  unfoldable pub ack : ImageWork → Exec W Bool
  ack work = do
    require_client images server c
    acked ← with_owner images server c (λ owner epoch.
        eval_script server (
          ack_script owner epoch (manifest_of work) work.payload_keys (payload_values work.images)))
    pure (acked == 1)

  -- `renew_owner(redis_client)`
  unfoldable pub image_renew_owner : Exec W Bool
  image_renew_owner = or_else image_renew_lock false

  unfoldable pub image_acquire_owner : ℕ → Exec W (Option Bool)
  image_acquire_owner rounds = acquire_owner images server c rounds

  unfoldable pub image_recover_claims : ℕ → Exec W (Option Bool)
  image_recover_claims rounds = recover_claims images server c rounds
