-- ===== src/Image/Main/Completed.antt =====
-- What process_claim of services/image-indexer/main.py has done when it reports a completed page.
use mifolyo.Base.{◌≡◌, refl, ap, ◌∙◌, ◌≢◌, Bool, true, false, Option, none, some}
use mifolyo.Base.{if◌then◌else◌}
use mifolyo.Base.Texts.{Text}
use mifolyo.Fenced.Session.{
  connection_error, response_error, redis_error, lock_lost, value_error, key_error, mongo_error,
  invalid_key, invalid_work, page_decode_error, Outcome, ok, raise,
}
use mifolyo.Fenced.Session.{Session, Exec, ◌>>=◌, pure, or_else, attempt, finally, Server}
use mifolyo.Fenced.Client.{Config}
use mifolyo.Fenced.Client.{is_running}
use mifolyo.Fenced.Session.Inversion.{
  value_eq, Never, Branch, pure-Never, Branch-Never, bind-Never, or_else-Never, true_inv, bind_inv,
  finally_inv, or_else_inv, attempt_inv, state_eq,
}
use mifolyo.Image.Scripts.{images}
use mifolyo.Image.Client.{image_renew_owner, parse_manifest_key, ImageWork, quarantine_claim, ack}
use mifolyo.Image.Main.{
  Verdict, completed, quarantined, transient_failure, Services, owner_check, bury, acknowledge,
  replace, after_load, locked_work, release_canonical, canonical_token, process_parsed,
  process_claim,
}

module _ {W Keywords : Type 0} (server : Server W) (c : Config) (services : Services W Keywords)
    (manifest_key : Text) where
  -- The check that both locks are held: no signal has arrived, the owner lock was renewed, and the
  -- canonical lock is the token's.
  pub record IsOwner (page_url token : Text) (s t : Session W) : Type 0 where
    pub polled : Session W
    pub renewed : Session W
    pub running : is_running images server c s ≡ (ok true, polled)
    pub renews : image_renew_owner server c polled ≡ (ok true, renewed)
    pub owns : services.owns_canonical_lock page_url token renewed ≡ (ok true, t)

  false_not : (t u : Session W) → pure {W = W} false u ≢ (ok true, t)
  false_not t u h = no (value_eq false true u t h)
    where
      no : false ≢ true
      no e = cc

  owner_check-IsOwner :
      (page_url token : Text) (s t : Session W)
      → owner_check server c services manifest_key page_url token s ≡ (ok true, t)
      → IsOwner page_url token s t
  unfolding owner_check
  owner_check-IsOwner page_url token s t h =
      let (u, a, b) =
        true_inv (is_running images server c) (pure false)
          (image_renew_owner server c
            >>= Branch (pure false) (services.owns_canonical_lock page_url token))
          s true t (false_not t) h in
      let (v, d, e) =
        true_inv (image_renew_owner server c) (pure false)
          (services.owns_canonical_lock page_url token) u true t (false_not t) b in
      record { polled = u; renewed = v; running = a; renews = d; owns = e }

  -- In this order: the work is loaded, the images of its page are replaced, the ownership is confirmed,
  -- the work is acknowledged.
  pub record IsAcknowledged (page_url token : Text) (s t : Session W) : Type 0 where
    pub work : ImageWork
    pub keywords : Keywords
    pub loaded : Session W
    pub read : Session W
    pub replaced : Session W
    pub confirmed : Session W
    pub load : services.load_work manifest_key s ≡ (ok work, loaded)
    pub keywords_read : services.get_keywords work.page_url loaded ≡ (ok keywords, read)
    pub replace_images :
        services.replace_page_images work.page_url work.publication_id work.images keywords token
          (owner_check server c services manifest_key page_url token)
          read
        ≡ (ok true, replaced)
    pub confirm : IsOwner page_url token replaced confirmed
    pub acknowledged : ack server c work confirmed ≡ (ok true, t)

  transient_not : transient_failure ≢ completed
  transient_not h = cc

  failure-Never : (t u : Session W) → pure {W = W} transient_failure u ≢ (ok completed, t)
  failure-Never t u = pure-Never completed transient_failure transient_not u t

  module _ (page_url token : Text) where
    check : Exec W Bool
    check = owner_check server c services manifest_key page_url token

    bury-Never : Never completed (bury server c services manifest_key page_url token)
    unfolding bury check
    bury-Never = bind-Never completed check _ (λ owned.
        Branch-Never completed _ _ owned (pure-Never completed _ transient_not)
          (bind-Never completed (quarantine_claim server c manifest_key) _ (λ done. decided done)))
      where
        decided :
            (done : Bool)
            → Never completed (pure {W = W} (if done then quarantined else transient_failure))
        decided true = pure-Never completed quarantined (λ h. cc)
        decided false = pure-Never completed transient_failure transient_not

    abbrev verdict_if : Bool → Exec W Verdict
    verdict_if done = pure (if done then completed else transient_failure)

    acknowledge_inv :
        (work : ImageWork) (s t : Session W)
        → acknowledge server c services manifest_key page_url token work s ≡ (ok completed, t)
        → (u : Session W) × (check s ≡ (ok true, u)) × (ack server c work u ≡ (ok true, t))
    unfolding acknowledge check
    acknowledge_inv work s t h =
        let (u, e, q) =
          true_inv check (pure transient_failure) (or_else (ack server c work) false >>= verdict_if)
            s completed t (failure-Never t) h in
        let (b, (x, a, r)) =
          bind_inv (or_else (ack server c work) false) verdict_if u completed t q in
        (u, e, or_else_inv (ack server c work) u t (last b x u a r))
      where
        last :
            (b : Bool) (x u : Session W)
            → or_else (ack server c work) false u ≡ (ok b, x)
            → verdict_if b x ≡ (ok completed, t)
            → or_else (ack server c work) false u ≡ (ok true, t)
        last true x u a r = a ∙ ap (λ x. (ok true, x)) (state_eq completed completed x t r)
        last false x u a r = absurd (failure-Never t x r)

    load_inv :
        (o : Outcome ImageWork) (s loaded t : Session W)
        → services.load_work manifest_key s ≡ (o, loaded)
        → after_load server c services manifest_key page_url token o loaded ≡ (ok completed, t)
        → IsAcknowledged page_url token s t
    unfolding after_load replace check
    load_inv (ok work) s loaded t l q =
        let (u, e, r) =
          true_inv (or_else (replace server c services manifest_key page_url token work) false)
            (pure transient_failure)
            (acknowledge server c services manifest_key page_url token work) loaded completed t
            (failure-Never t) q in
        let (keywords, (v, k, p)) =
          bind_inv (services.get_keywords work.page_url)
            (λ keywords.
              services.replace_page_images work.page_url work.publication_id work.images keywords
                token check)
            loaded true u
            (or_else_inv (replace server c services manifest_key page_url token work) loaded u e) in
        let (w, owned, done) = acknowledge_inv work u t r in
        record {
          work = work;
          keywords = keywords;
          loaded = loaded;
          read = v;
          replaced = u;
          confirmed = w;
          load = l;
          keywords_read = k;
          replace_images = p;
          confirm = owner_check-IsOwner page_url token u w owned;
          acknowledged = done;
        }
    load_inv (raise (invalid_work m)) s loaded t l q =
        absurd (or_else-Never completed _ transient_failure bury-Never transient_not loaded t q)
    load_inv (raise (page_decode_error m)) s loaded t l q = cc
    load_inv (raise connection_error) s loaded t l q = cc
    load_inv (raise (response_error m)) s loaded t l q = cc
    load_inv (raise redis_error) s loaded t l q = cc
    load_inv (raise lock_lost) s loaded t l q = cc
    load_inv (raise value_error) s loaded t l q = cc
    load_inv (raise key_error) s loaded t l q = cc
    load_inv (raise mongo_error) s loaded t l q = cc
    load_inv (raise (invalid_key m)) s loaded t l q = cc

  -- How a completed claim was processed, from the state s to the state t.
  pub record IsIndexed (s t : Session W) : Type 0 where
    pub id : Text
    pub page_url : Text
    pub encoded : Text
    pub renewed : Session W
    pub acquired : Session W
    pub worked : Session W
    pub parsed : parse_manifest_key manifest_key ≡ some (id, page_url, encoded)
    pub renew : image_renew_owner server c s ≡ (ok true, renewed)
    pub acquire :
        services.acquire_canonical_lock page_url (canonical_token server c services id) id renewed
        ≡ (ok true, acquired)
    pub done : IsAcknowledged page_url (canonical_token server c services id) acquired worked
    pub released :
        (release_canonical server c services manifest_key page_url
          (canonical_token server c services id)
          worked).1
        ≡ t

  -- When the image indexer's process_claim reports a completed claim, it has, in this order, read the
  -- claim as a manifest's key, renewed the owner lock, taken the canonical lock of the key's URL, loaded
  -- the work, read the page's keywords, replaced the page's images, read that no signal has arrived,
  -- renewed the owner lock again and found the canonical lock its own, had the acknowledgement of the
  -- work accepted, and asked for the release of the canonical lock, which may have failed.
  pub process_claim-IsIndexed :
      (s t : Session W)
      → process_claim server c services manifest_key s ≡ (ok completed, t)
      → IsIndexed s t
  unfolding process_claim process_parsed locked_work
  process_claim-IsIndexed s t h = go (parse_manifest_key manifest_key) refl h
    where
      buried :
          (b : Bool) → Never completed (pure {W = W} (if b then quarantined else transient_failure))
      buried true = pure-Never completed quarantined (λ h. cc)
      buried false = pure-Never completed transient_failure transient_not

      go :
          (o : Option (Text × Text × Text))
          → parse_manifest_key manifest_key ≡ o
          → process_parsed server c services manifest_key o s ≡ (ok completed, t)
          → IsIndexed s t
      go none e q = absurd (
          bind-Never completed (or_else (quarantine_claim server c manifest_key) false) _ buried s t
            q)
      go (some (id, page_url, encoded)) e q =
          let (u, x, y) =
            true_inv (image_renew_owner server c) (pure transient_failure) (locked id page_url) s
              completed t (failure-Never t) q in
          let (v, z, r) =
            true_inv (takes id page_url) (pure transient_failure) (work id page_url) u completed t
              (failure-Never t) y in
          let (w, a, b) =
            finally_inv (locked_work server c services manifest_key page_url (token id))
              (release_canonical server c services manifest_key page_url (token id)) v completed t
              r in
          let (o, (x', f, g)) =
            bind_inv (attempt (services.load_work manifest_key))
              (after_load server c services manifest_key page_url (token id)) v completed w a in
          record {
            id = id;
            page_url = page_url;
            encoded = encoded;
            renewed = u;
            acquired = v;
            worked = w;
            parsed = e;
            renew = x;
            acquire = or_else_inv (services.acquire_canonical_lock page_url (token id) id) u v z;
            done =
                load_inv page_url (token id) o v x' w
                  (attempt_inv (services.load_work manifest_key) v o x' f) g;
            released = b;
          }
        where
          token : Text → Text
          token id = canonical_token server c services id

          work : Text → Text → Exec W Verdict
          work id page_url =
              finally (locked_work server c services manifest_key page_url (token id))
                (release_canonical server c services manifest_key page_url (token id))

          takes : Text → Text → Exec W Bool
          takes id page_url = or_else (services.acquire_canonical_lock page_url (token id) id) false

          locked : Text → Text → Exec W Verdict
          locked id page_url =
              takes id page_url >>= Branch (pure transient_failure) (work id page_url)
