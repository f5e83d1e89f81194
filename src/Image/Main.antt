-- ===== src/Image/Main.antt =====
-- The service loop of services/image-indexer/main.py.
pub mod Completed
use mifolyo.Base.{Bool, true, false, Option, none, some}
use mifolyo.Base.{List, ℕ, zero, suc, ◌-◌}
use mifolyo.Base.{ltb, if◌then◌else◌}
use mifolyo.Base.Texts.{Text}
use mifolyo.Fenced.Session.{invalid_work, Outcome, ok, raise}
use mifolyo.Fenced.Session.{Exec, ◌>>=◌, pure, or_else, attempt, finally, Server}
use mifolyo.Fenced.Client.{Config}
use mifolyo.Fenced.Client.{is_running, pause, now}
use mifolyo.Image.Scripts.{images}
use mifolyo.Image.Client.{
  image_renew_owner, image_acquire_owner, image_recover_claims, image_release_lock,
  parse_manifest_key, Image, ImageWork, claim_manifest, release_claim, quarantine_claim, ack,
}

pub data Verdict : Type 0 where
  completed quarantined transient_failure : Verdict

-- The loading of work and the Mongo client that the loop calls, by what they return or raise.
pub record Services (W : Type 0) (Keywords : Type 0) : Type 0 where
  pub load_work : Text → Exec W ImageWork
  pub lock_token : Text → Text → Text
  pub acquire_canonical_lock : Text → Text → Text → Exec W Bool
  pub owns_canonical_lock : Text → Text → Exec W Bool
  pub release_canonical_lock : Text → Text → Exec W Bool
  pub get_keywords : Text → Exec W Keywords
  pub replace_page_images : Text → Text → List Image → Keywords → Text → Exec W Bool → Exec W Bool

-- How a round ends: with an exit code, or with another round and the time of the last renewal.
pub data Next : Type 0 where
  exit again : ℕ → Next

module _ {W Keywords : Type 0} (server : Server W) (c : Config)
    (services : Services W Keywords) where
  -- One claimed manifest, under the canonical lock of its page's URL.
  module _ (manifest_key page_url token : Text) where
    -- `running and renew_owner(redis_client) and mongo_client.owns_canonical_lock(...)`
    unfoldable pub owner_check : Exec W Bool
    owner_check = is_running images server c >>= λ still. elim still [
      | false ↦ pure false
      | true ↦ image_renew_owner server c >>= λ renewed. elim renewed [
        | false ↦ pure false
        | true ↦ services.owns_canonical_lock page_url token
      ]
    ]

    unfoldable pub bury : Exec W Verdict
    bury = owner_check >>= λ owned. elim owned [
      | false ↦ pure transient_failure
      | true ↦ quarantine_claim server c manifest_key >>= λ done.
          pure (if done then quarantined else transient_failure)
    ]

    unfoldable pub acknowledge : ImageWork → Exec W Verdict
    acknowledge work = owner_check >>= λ owned. elim owned [
      | false ↦ pure transient_failure
      | true ↦ or_else (ack server c work) false >>= λ done.
          pure (if done then completed else transient_failure)
    ]

    unfoldable pub replace : ImageWork → Exec W Bool
    replace work = services.get_keywords work.page_url >>= λ keywords.
        services.replace_page_images work.page_url work.publication_id work.images keywords token
          owner_check

    -- Invalid work is quarantined; any other failure is transient.
    unfoldable pub after_load : Outcome ImageWork → Exec W Verdict
    after_load (raise (invalid_work _)) = or_else bury transient_failure
    after_load (raise _) = pure transient_failure
    after_load (ok work) = or_else (replace work) false >>= λ reconciled. elim reconciled [
      | false ↦ pure transient_failure
      | true ↦ acknowledge work
    ]

    unfoldable pub locked_work : Exec W Verdict
    locked_work = attempt (services.load_work manifest_key) >>= λ loaded. after_load loaded

    unfoldable pub release_canonical : Exec W Bool
    release_canonical = or_else (services.release_canonical_lock page_url token) false

  abbrev pub canonical_token : Text → Text
  canonical_token id = services.lock_token c.owner_token id

  unfoldable pub process_parsed : Text → Option (Text × Text × Text) → Exec W Verdict
  process_parsed manifest_key none =
      or_else (quarantine_claim server c manifest_key) false >>= λ done.
      pure (if done then quarantined else transient_failure)
  process_parsed manifest_key (some (id, page_url, encoded)) =
      image_renew_owner server c >>= λ renewed. elim renewed [
        | false ↦ pure transient_failure
        | true ↦
            or_else (services.acquire_canonical_lock page_url (canonical_token id) id) false
            >>= λ acquired. elim acquired [
              | false ↦ pure transient_failure
              | true ↦
                  finally (locked_work manifest_key page_url (canonical_token id))
                    (release_canonical manifest_key page_url (canonical_token id))
            ]
      ]

  unfoldable pub process_claim : Text → Exec W Verdict
  process_claim manifest_key = process_parsed manifest_key (parse_manifest_key manifest_key)

  abbrev pub lock_renew_ms : ℕ
  lock_renew_ms = 10000

  -- Renews the lock when it is due; `none` if it could not be renewed.
  unfoldable pub renew_when_due : ℕ → Exec W (Option ℕ)
  renew_when_due last_renewal = now images server c >>= λ time.
      elim (ltb (time - last_renewal) lock_renew_ms) [
        | true ↦ pure (some last_renewal)
        | false ↦ image_renew_owner server c >>= λ renewed. elim renewed [
          | false ↦ pure none
          | true ↦ now images server c >>= λ later. pure (some later)
        ]
      ]

  unfoldable pub after_verdict : Text → ℕ → Verdict → Exec W Next
  after_verdict claim last_renewal transient_failure =
      or_else (release_claim server c claim) false >>= λ _. pure (exit 1)
  after_verdict claim last_renewal _ = pure (again last_renewal)

  unfoldable pub after_claim : ℕ → Outcome (Option Text) → Exec W Next
  after_claim last_renewal (raise _) = pure (exit 1)
  after_claim last_renewal (ok none) = pause images server c >>= λ _. pure (again last_renewal)
  after_claim last_renewal (ok (some claim)) = is_running images server c >>= λ still. elim still [
    | false ↦ pure (exit 0)
    | true ↦ process_claim claim >>= λ verdict. after_verdict claim last_renewal verdict
  ]

  unfoldable pub work_round : ℕ → Exec W Next
  work_round last_renewal = is_running images server c >>= λ still. elim still [
    | false ↦ pure (exit 0)
    | true ↦ renew_when_due last_renewal >>= λ renewed. elim renewed [
      | none ↦ pure (exit 1)
      | some time ↦ attempt (claim_manifest server c) >>= λ claim. after_claim time claim
    ]
  ]

  -- The loop, for at most `rounds` rounds; `none` while it still runs
  unfoldable pub work_loop : ℕ → ℕ → Exec W (Option ℕ)
  work_loop zero last_renewal = pure none
  work_loop (suc rounds) last_renewal = work_round last_renewal >>= λ next. elim next [
    | exit code ↦ pure (some code)
    | again time ↦ work_loop rounds time
  ]

  -- `0 if not running else 1`
  unfoldable pub stopped : Exec W (Option ℕ)
  stopped = is_running images server c >>= λ still. pure (some (if still then 1 else 0))

  unfoldable pub run_owned : ℕ → Exec W (Option ℕ)
  run_owned rounds = image_recover_claims server c rounds >>= λ recovered. elim recovered [
    | none ↦ pure none
    | some b ↦ elim b [
      | false ↦ stopped
      | true ↦ now images server c >>= λ time. work_loop rounds time
    ]
  ]

  unfoldable pub run_indexer : ℕ → Exec W (Option ℕ)
  run_indexer rounds = image_acquire_owner server c rounds >>= λ acquired. elim acquired [
    | none ↦ pure none
    | some b ↦ elim b [
      | false ↦ stopped
      | true ↦ finally (run_owned rounds) (or_else (image_release_lock server c) false)
    ]
  ]
