-- ===== src/Fenced/Tests.antt =====
-- Runs of the queue scripts of services/indexer on a Redis in memory.
use mifolyo.Base.{◌≡◌, refl, true, Option, some}
use mifolyo.Base.{[], ◌∷◌, ℕ, ◌<◌, arith}
use mifolyo.Base.{All}
use mifolyo.Base.Texts.{Text, codes, same}
use mifolyo.Base.Decimal.{digits, read_digits, is_digit, all_digits, str, int_of, is_canonical}
use mifolyo.Fenced.Store.{absent, text, items, Keyspace}
use mifolyo.Fenced.Store.{index_of}
use mifolyo.Fenced.Memory.{put}
use mifolyo.Fenced.Memory.{memory, IsRedis}
use mifolyo.Fenced.Script.{reject, answer_if, eval, seen}
use mifolyo.Fenced.Queue.{owner_value, next_epoch, acquire}
use mifolyo.Fenced.Queue.{claim}
use mifolyo.Fenced.Queue.{release, quarantine, recover}
use mifolyo.Fenced.Keys.{
  page_prefix, key_of, parse_key, identity_of, cut, is_publication_id, all_hex, decode_url,
  is_ascii,
}
use mifolyo.Base.{All}
use mifolyo.Base.Utf8.{decode}
use mifolyo.Base.Base64.{encode64, decode64, letter, sextet, one_byte, two_bytes, three_bytes}
use mifolyo.Fenced.Spec.{Queue, queue_of, Shows, Refines, take_oldest, put_back, give_back}
use mifolyo.Fenced.Queue.Held.{IsHeld}
use mifolyo.Fenced.Queue.Refine.{owner_scripts_refine}
use mifolyo.Fenced.Queue.Quarantine.{quarantine_buries, IsBuried}
use mifolyo.Fenced.System.{perform, Reach, operate, stay, then_step, acquiring, claiming}
use mifolyo.Fenced.System.Fence.{stale_client_writes_nothing}
use mifolyo.Fenced.System.Granted.{granted_epoch_is_new}
use mifolyo.Fenced.History.{claims, recovers, moves, claims_come_back}
use mifolyo.Fenced.Keys.Laws.{no_colon, parse_key-key_of, parse_key_injective}
use mifolyo.Indexer.Scripts.{indexer, indexer-IsLayout}

abbrev pub in_memory : IsRedis memory (λ (s : Keyspace). s)
in_memory = record {
  kinds = λ k w. refl;
  integers = λ c w. refl;
  bulks = λ c w. refl;
  positions = λ k v w. refl;
  statuses = λ c w. refl;
}

abbrev pub token : Text
token = codes "host-a"

abbrev pub empty : Keyspace
empty k = absent

-- The counter at epoch 2, the lock in the hands of the token, two waiting values, one claim, one dead
-- letter.
abbrev pub busy : Keyspace
busy = put indexer.counter (text (str 2)) (
    put indexer.lock (text (owner_value token (str 2))) (
      put indexer.queue (items (codes "c" ∷ codes "b" ∷ [])) (
        put indexer.processing (items (codes "a" ∷ []))
          (put indexer.dead (items (codes "z" ∷ [])) empty))))

pub busy-IsHeld : IsHeld indexer (owner_value token (str 2)) (str 2) busy
unfolding put same str digits
busy-IsHeld = record { lock = refl; counter = refl }

abbrev pub busy_queue : Queue
busy_queue = queue_of (codes "c" ∷ codes "b" ∷ []) (codes "a" ∷ [])

pub busy-Shows : Shows indexer busy busy_queue
unfolding put same str digits
busy-Shows = record { waiting = refl; claimed = refl }

-- Another client takes the lock after it has expired.
abbrev expired : Keyspace
expired = put indexer.lock absent busy

abbrev retaken :
    Reach indexer memory
      (λ (s : Keyspace). s)
      expired
      (perform indexer memory (acquiring (codes "host-b") 60000) expired)
retaken = then_step (stay expired) (operate (acquiring (codes "host-b") 60000) expired)

stale_client_writes_nothing_example :
    perform indexer memory
      (claiming (owner_value token (str 1)) (str 1))
      (perform indexer memory (acquiring (codes "host-b") 60000) expired)
    ≡ perform indexer memory (acquiring (codes "host-b") 60000) expired
unfolding put same
stale_client_writes_nothing_example =
    stale_client_writes_nothing memory (λ s. s) in_memory indexer indexer-IsLayout expired
      (perform indexer memory (acquiring (codes "host-b") 60000) expired) 2 1
      (claiming (owner_value token (str 1)) (str 1)) counter_two (omega arith) retaken refl
  where
    counter_two : expired indexer.counter ≡ text (str 2)
    counter_two = refl

-- The counter is then 3, as a text that the script replies.
granted_epoch_is_new_example :
    ((m : ℕ) × (2 < m) × (codes "3" ≡ str m))
    × IsHeld indexer
        (owner_value (codes "host-b") (codes "3"))
        (codes "3")
        (eval memory (acquire indexer (codes "host-b") 60000) expired).1
unfolding put same str digits eval acquire next_epoch reject answer_if is_canonical int_of is_digit
    all_digits read_digits
granted_epoch_is_new_example =
    granted_epoch_is_new memory (λ s. s) in_memory indexer indexer-IsLayout expired expired 2 60000
      (codes "host-b") (codes "3") refl (stay expired) refl

owner_scripts_refine_example :
    Refines indexer busy
      (Option Text)
      (seen (λ s. s) (eval memory (claim indexer (owner_value token (str 2)) (str 2)) busy))
      (take_oldest busy_queue)
    × Refines indexer busy ℕ
        (seen (λ s. s) (eval memory (recover indexer (owner_value token (str 2)) (str 2) 100) busy))
        (put_back 100 busy_queue)
    × Refines indexer busy ℕ
        (seen
          (λ s. s)
          (eval memory (release indexer (owner_value token (str 2)) (str 2) (codes "a")) busy))
        (give_back (codes "a") busy_queue)
owner_scripts_refine_example =
    owner_scripts_refine memory (λ s. s) in_memory indexer indexer-IsLayout
      (owner_value token (str 2)) (str 2) busy busy_queue 100 (codes "a") busy-IsHeld busy-Shows
      (omega arith) (omega arith)

quarantine_buries_example :
    IsBuried indexer indexer-IsLayout
      (owner_value token (str 2))
      (str 2)
      (codes "a")
      1
      busy_queue
      (codes "z" ∷ [])
      (seen
        (λ s. s)
        (eval memory (quarantine indexer (owner_value token (str 2)) (str 2) (codes "a") 1) busy))
unfolding put same index_of
quarantine_buries_example =
    quarantine_buries indexer indexer-IsLayout (owner_value token (str 2)) (str 2) (codes "a") 1
      memory (λ s. s) in_memory busy busy_queue (codes "z" ∷ []) 0 busy-IsHeld busy-Shows refl refl
      (omega arith) (omega arith)

-- Two waiting values and no claim.
abbrev pub fresh : Keyspace
fresh = put indexer.processing absent busy

fresh-IsHeld : IsHeld indexer (owner_value token (str 2)) (str 2) fresh
unfolding put same str digits
fresh-IsHeld = record { lock = refl; counter = refl }

fresh-Shows : Shows indexer fresh (queue_of (codes "c" ∷ codes "b" ∷ []) [])
unfolding put same
fresh-Shows = record { waiting = refl; claimed = refl }

claims_come_back_example :
    Shows indexer
      (eval memory (recover indexer (owner_value token (str 2)) (str 2) 100) (
        moves indexer memory
          (owner_value token (str 2))
          (str 2)
          (claims ∷ claims ∷ recovers 1 ∷ [])
          fresh)).1
      (queue_of (codes "c" ∷ codes "b" ∷ []) [])
claims_come_back_example =
    claims_come_back indexer indexer-IsLayout (owner_value token (str 2)) (str 2) memory (λ s. s)
      in_memory (claims ∷ claims ∷ recovers 1 ∷ []) (codes "c" ∷ codes "b" ∷ []) 100 fresh
      fresh-IsHeld fresh-Shows (omega arith) (omega arith) (omega arith)

abbrev pub the_id : Text
the_id = codes "00000000000000000000000000000000000000000000000000000000000000ab"

abbrev pub the_url : Text
the_url = codes "https://a.b/"

-- The URL is ASCII, so that its bytes are its code points.
url_decodes : decode the_url ≡ some the_url
unfolding decode
url_decodes = refl

the_id_valid : is_publication_id the_id ≡ true
unfolding is_publication_id all_hex
the_id_valid = refl

parse_key-key_of_example :
    parse_key page_prefix (key_of page_prefix the_id (encode64 the_url))
    ≡ some (the_id, the_url, encode64 the_url)
unfolding no_colon
parse_key-key_of_example =
    parse_key-key_of page_prefix the_id the_url the_url refl the_id_valid bytes (omega arith)
      url_decodes refl
  where
    bytes : All (λ b. b < 256) the_url
    bytes = ground arith

the_key :
    parse_key page_prefix (key_of page_prefix the_id (encode64 the_url))
    ≡ some (the_id, the_url, encode64 the_url)
unfolding parse_key identity_of cut same is_publication_id all_hex decode_url encode64 decode64
    letter sextet is_ascii one_byte two_bytes three_bytes decode
the_key = refl

parse_key_injective_example :
    key_of page_prefix the_id (encode64 the_url) ≡ key_of page_prefix the_id (encode64 the_url)
parse_key_injective_example =
    parse_key_injective page_prefix (key_of page_prefix the_id (encode64 the_url))
      (key_of page_prefix the_id (encode64 the_url)) the_id the_url (encode64 the_url)
      (encode64 the_url) the_key the_key
