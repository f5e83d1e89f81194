-- ===== src/Image/Tests.antt =====
-- Runs of services/image-indexer on a Redis in memory and on datastores that agree to everything.
use mifolyo.Fenced.Memory.{memory}
use mifolyo.Image.Client.{manifest_of}
use mifolyo.Image.Scripts.Stale.{stale_ack_writes_nothing}
use mifolyo.Fenced.Tests.{in_memory}
use mifolyo.Base.{arith}
use mifolyo.Fenced.System.{stay}
use mifolyo.Base.{◌≡◌, refl, some, [], ◌∷◌, ℕ}
use mifolyo.Base.{true}
use mifolyo.Base.Texts.{Text, codes, same}
use mifolyo.Base.Dict.{Dict, lookup}
use mifolyo.Base.Decimal.{str, digits, int_of, is_digit, read_digits}
use mifolyo.Base.Base64.{encode64, decode64, letter, sextet, one_byte, two_bytes, three_bytes}
use mifolyo.Base.Utf8.{decode}
use mifolyo.Fenced.Store.{Keyspace, text, items, fields, index_of, remove_first}
use mifolyo.Fenced.Memory.{put, delete}
use mifolyo.Fenced.Script.{eval, reject, answer_if}
use mifolyo.Fenced.Queue.{owner_value, renew, lost}
use mifolyo.Fenced.Keys.{
  page_images_prefix, key_of, parse_key, cut, identity_of, all_hex, is_publication_id, decode_url,
  is_ascii,
}
use mifolyo.Fenced.Session.{Session, ok, pure, eval_script}
use mifolyo.Fenced.Client.{Config, renew_lock}
use mifolyo.Fenced.Tests.{token, empty, the_id, the_url}
use mifolyo.Indexer.Tests.{calm_server}
use mifolyo.Image.Scripts.{images, ack_script, any_differs, check_kinds, check_payloads}
use mifolyo.Image.Client.{
  ImageWork, parse_manifest_key, image_renew_owner, image_renew_lock, ack, payload_values,
}
use mifolyo.Image.Main.{
  completed, Services, owner_check, acknowledge, replace, after_load, locked_work,
  release_canonical, process_parsed, process_claim,
}
use mifolyo.Image.Main.Completed.{process_claim-IsIndexed, IsIndexed}

abbrev manifest_key : Text
manifest_key = key_of page_images_prefix the_id (encode64 the_url)

abbrev manifest : Dict Text
manifest =
    (codes "image_keys", codes "[]")
    ∷ (codes "image_count", codes "0")
    ∷ (codes "publication_id", the_id)
    ∷ (codes "normalized_url", the_url)
    ∷ (codes "contract_version", codes "1")
    ∷ []

-- A page without images is claimed.
abbrev claimed : Keyspace
claimed = put images.counter (text (str 2)) (
    put images.lock (text (owner_value token (str 2))) (
      put images.processing (items (manifest_key ∷ [])) (put manifest_key (fields manifest) empty)))

abbrev the_work : ImageWork
the_work = record {
  manifest_key = manifest_key;
  publication_id = the_id;
  page_url = the_url;
  payload_keys = [];
  images = [];
  serialized_keys = codes "[]";
}

abbrev agreeing : Services Keyspace ℕ
agreeing = record {
  load_work = λ k. pure the_work;
  lock_token = λ t i. t;
  acquire_canonical_lock = λ u t i. pure true;
  owns_canonical_lock = λ u t. pure true;
  release_canonical_lock = λ u t. pure true;
  get_keywords = λ u. pure 0;
  replace_page_images = λ u i xs k t c. pure true;
}

abbrev config : Config
config = record { owner_token = token; connected = true }

abbrev owner : Session Keyspace
owner = record { world = claimed; owner_epoch = some 2 }

the_work_completes :
    process_claim calm_server config agreeing manifest_key owner
    ≡ (ok completed, (process_claim calm_server config agreeing manifest_key owner).1)
unfolding process_claim process_parsed locked_work after_load replace acknowledge owner_check
    release_canonical parse_manifest_key parse_key cut same is_publication_id identity_of all_hex
    decode_url encode64 decode64 letter sextet is_ascii one_byte two_bytes three_bytes decode
    image_renew_owner image_renew_lock renew_lock eval_script eval renew lost reject answer_if ack
    ack_script any_differs check_kinds check_payloads put index_of remove_first delete str digits
    lookup int_of is_digit read_digits payload_values
the_work_completes = refl

process_claim-IsIndexed_example :
    IsIndexed calm_server config agreeing manifest_key owner
      (process_claim calm_server config agreeing manifest_key owner).1
process_claim-IsIndexed_example =
    process_claim-IsIndexed calm_server config agreeing manifest_key owner
      (process_claim calm_server config agreeing manifest_key owner).1 the_work_completes

counter_two : claimed images.counter ≡ text (str 2)
unfolding put same
counter_two = refl

stale_ack_writes_nothing_example :
    (eval memory
      (ack_script (owner_value token (str 1)) (str 1) (manifest_of the_work) [] [])
      claimed).1
    ≡ claimed
stale_ack_writes_nothing_example =
    stale_ack_writes_nothing memory (λ s. s) in_memory claimed claimed 2 1
      (owner_value token (str 1)) (manifest_of the_work) [] [] counter_two (omega arith)
      (stay claimed)
