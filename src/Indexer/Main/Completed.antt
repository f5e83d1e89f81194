-- ===== src/Indexer/Main/Completed.antt =====
-- What process_claim of services/indexer/main.py has done when it reports a completed page.
use mifolyo.Base.{◌≡◌, refl, sym, ap, ◌∙◌, ◌≢◌, Bool, true, false, Option, none, some}
use mifolyo.Base.{if◌then◌else◌}
use mifolyo.Base.Texts.{Text, same, same→eq}
use mifolyo.Fenced.Session.{
  connection_error, response_error, redis_error, lock_lost, value_error, key_error, mongo_error,
  invalid_key, invalid_work, page_decode_error, Outcome, ok, raise,
}
use mifolyo.Fenced.Session.{Session, Exec, ◌>>=◌, pure, or_else, attempt, finally, Server}
use mifolyo.Fenced.Client.{Config}
use mifolyo.Fenced.Client.{is_running}
use mifolyo.Fenced.Client.{renew_owner}
use mifolyo.Fenced.Session.Inversion.{
  Never, Branch, pure-Never, Branch-Never, bind-Never, true_inv, value_eq, state_eq, bind_inv,
  finally_inv, or_else_inv,
}
use mifolyo.Indexer.Main.{
  Page, Html, Verdict, completed, skipped, quarantined, transient_failure, Services, is_indexable,
  owner_check, conclude,
}
use mifolyo.Indexer.Main.{
  remove_state_and_skip, reconcile, analyse, store_artifact, index_page, after_fetch, locked_work,
  release_canonical, canonical_token, process_parsed, process_claim,
}
use mifolyo.Indexer.Scripts.{indexer}
use mifolyo.Indexer.Client.{parse_page_publication_key, complete_page, skip_page, quarantine_page}

module _ {W Keywords Outlinks : Type 0} (server : Server W) (c : Config)
    (services : Services W Keywords Outlinks) (page_key : Text) where
  -- The check that both locks are held: no signal has arrived, the owner lock was renewed, and the
  -- canonical lock is the token's.
  pub record IsOwner (key_url token : Text) (s t : Session W) : Type 0 where
    pub polled : Session W
    pub renewed : Session W
    pub running : is_running indexer server c s ≡ (ok true, polled)
    pub renews : renew_owner indexer server c polled ≡ (ok true, renewed)
    pub owns : services.owns_canonical_lock key_url token renewed ≡ (ok true, t)

  false_not : (t u : Session W) → pure {W = W} false u ≢ (ok true, t)
  false_not t u h = no (value_eq false true u t h)
    where
      no : false ≢ true
      no e = cc

  owner_check-IsOwner :
      (key_url token : Text) (s t : Session W)
      → owner_check server c services page_key key_url token s ≡ (ok true, t)
      → IsOwner key_url token s t
  unfolding owner_check
  owner_check-IsOwner key_url token s t h =
      let (u, a, b) =
        true_inv (is_running indexer server c) (pure false)
          (renew_owner indexer server c
            >>= Branch (pure false) (services.owns_canonical_lock key_url token))
          s true t (false_not t) h in
      let (v, d, e) =
        true_inv (renew_owner indexer server c) (pure false)
          (services.owns_canonical_lock key_url token) u true t (false_not t) b in
      record { polled = u; renewed = v; running = a; renews = d; owns = e }

  -- In this order: the search state is replaced, the ownership is confirmed, the claim is completed.
  pub record IsReconciled (key_url token : Text) (s t : Session W) : Type 0 where
    pub page : Page
    pub html : Html
    pub outlinks : Outlinks
    pub before : Session W
    pub replaced : Session W
    pub confirmed : Session W
    pub same_url : page.normalized_url ≡ key_url
    pub indexable : is_indexable html ≡ true
    pub analysed : services.get_html_data page ≡ ok (some html)
    pub replace :
        services.replace_search_state page html
          (services.keywords_of html page.normalized_url)
          outlinks
          token
          (owner_check server c services page_key key_url token)
          before
        ≡ (ok true, replaced)
    pub confirm : IsOwner key_url token replaced confirmed
    pub complete : complete_page server c page_key page.normalized_url confirmed ≡ (ok true, t)

  module _ (key_url token : Text) where
    check : Exec W Bool
    check = owner_check server c services page_key key_url token

    abbrev verdict_if : Verdict → Bool → Exec W Verdict
    verdict_if w done = pure (if done then w else transient_failure)

    -- The steps of `conclude`, for a verdict that is not transient.
    conclude_inv :
        (action : Exec W Bool) (w : Verdict) (s t : Session W)
        → w ≢ transient_failure
        → conclude server c services page_key key_url token action w s ≡ (ok w, t)
        → (u : Session W) × (check s ≡ (ok true, u)) × (action u ≡ (ok true, t))
    unfolding conclude check
    conclude_inv action w s t n h =
        let (u, e, q) =
          true_inv check (pure transient_failure) (action >>= verdict_if w) s w t
            (λ u e. n (sym (value_eq transient_failure w u t e))) h in
        let (b, (x, a, r)) = bind_inv action (verdict_if w) u w t q in (u, e, last b x u a r)
      where
        last :
            (b : Bool) (x u : Session W)
            → action u ≡ (ok b, x)
            → verdict_if w b x ≡ (ok w, t)
            → action u ≡ (ok true, t)
        last true x u a r = a ∙ ap (λ x. (ok true, x)) (state_eq w w x t r)
        last false x u a r = absurd (n (sym (value_eq transient_failure w x t r)))

    conclude-Never :
        (action : Exec W Bool) (w v : Verdict)
        → w ≢ v
        → transient_failure ≢ v
        → Never v (conclude server c services page_key key_url token action w)
    unfolding conclude check
    conclude-Never action w v n m = bind-Never v check _ (λ owned.
        Branch-Never v _ _ owned (pure-Never v _ m) (bind-Never v action _ (λ done. decided done)))
      where
        decided : (done : Bool) → Never v (verdict_if w done)
        decided true = pure-Never v w n
        decided false = pure-Never v transient_failure m

    transient_not : transient_failure ≢ completed
    transient_not h = cc

    skip-Never :
        (url : Text)
        → Never completed (remove_state_and_skip server c services page_key key_url token url)
    unfolding remove_state_and_skip check
    skip-Never url = bind-Never completed check _ (λ owned.
        Branch-Never completed _ _ owned (pure-Never completed _ transient_not) (
          bind-Never completed (or_else (services.remove_search_state url token check) false) _
            (λ removed. Branch-Never completed _ _ removed (pure-Never completed _ transient_not) (
              conclude-Never (skip_page server c page_key) skipped completed (λ h. cc)
                transient_not))))

    reconcile_inv :
        (page : Page) (h : Html) (o : Outcome Outlinks) (s t : Session W)
        → page.normalized_url ≡ key_url
        → is_indexable h ≡ true
        → services.get_html_data page ≡ ok (some h)
        → reconcile server c services page_key key_url token page h o s ≡ (ok completed, t)
        → IsReconciled key_url token s t
    unfolding reconcile check
    reconcile_inv page h (raise x) s t p i a q = cc
    reconcile_inv page h (ok o) s t p i a q =
        let (u, e, r) =
          true_inv (or_else replaces false) (pure transient_failure)
            (conclude server c services page_key key_url token
              (complete_page server c page_key page.normalized_url) completed)
            s completed t (λ u. pure-Never completed transient_failure transient_not u t) q in
        let (w, owned, done) =
          conclude_inv (complete_page server c page_key page.normalized_url) completed u t (λ h. cc)
            r in
        record {
          page = page;
          html = h;
          outlinks = o;
          before = s;
          replaced = u;
          confirmed = w;
          same_url = p;
          indexable = i;
          analysed = a;
          replace = or_else_inv replaces s u e;
          confirm = owner_check-IsOwner key_url token u w owned;
          complete = done;
        }
      where
        replaces : Exec W Bool
        replaces =
            services.replace_search_state page h (services.keywords_of h page.normalized_url) o
              token check

    quarantine-Never : Never completed (
        conclude server c services page_key key_url token
          (quarantine_page server c page_key)
          quarantined)
    quarantine-Never =
        conclude-Never (quarantine_page server c page_key) quarantined completed (λ h. cc)
          transient_not

    -- A page is completed by the last step of `reconcile` alone.
    abbrev Reconciled : Session W → Type 0
    Reconciled t = (u : Session W) × IsReconciled key_url token u t

    analyse_inv :
        (page : Page) (o : Outcome (Option Html)) (s t : Session W)
        → page.normalized_url ≡ key_url
        → services.get_html_data page ≡ o
        → analyse server c services page_key key_url token page o s ≡ (ok completed, t)
        → Reconciled t
    unfolding analyse
    analyse_inv page (raise x) s t p a q = cc
    analyse_inv page (ok none) s t p a q = absurd (skip-Never page.normalized_url s t q)
    analyse_inv page (ok (some h)) s t p a q = go (is_indexable h) refl q
      where
        linked : Exec W Verdict
        linked = attempt (services.get_outlinks page_key page.normalized_url) >>= λ outlinks.
            reconcile server c services page_key key_url token page h outlinks

        go :
            (b : Bool)
            → is_indexable h ≡ b
            → Branch
                (remove_state_and_skip server c services page_key key_url token page.normalized_url)
                linked
                b
                s
              ≡ (ok completed, t)
            → Reconciled t
        go false i r = absurd (skip-Never page.normalized_url s t r)
        go true i r =
            let (o, (u, e, z)) =
              bind_inv (attempt (services.get_outlinks page_key page.normalized_url))
                (λ outlinks. reconcile server c services page_key key_url token page h outlinks) s
                completed t r in
            (u, reconcile_inv page h o u t p i a z)

    index_inv :
        (page : Page) (s t : Session W)
        → index_page server c services page_key key_url token page s ≡ (ok completed, t)
        → Reconciled t
    unfolding index_page
    index_inv page s t q = go (same page.normalized_url key_url) refl q
      where
        stored : Exec W Verdict
        stored =
            store_artifact server c services page_key key_url token page
            >>= Branch (pure transient_failure) (
                analyse server c services page_key key_url token page (services.get_html_data page))

        go :
            (b : Bool)
            → same page.normalized_url key_url ≡ b
            → Branch (pure transient_failure) stored b s ≡ (ok completed, t)
            → Reconciled t
        go false e r = absurd (transient_not (value_eq transient_failure completed s t r))
        go true e r =
            let (u, x, z) =
              true_inv (store_artifact server c services page_key key_url token page)
                (pure transient_failure)
                (analyse server c services page_key key_url token page
                  (services.get_html_data page))
                s completed t (λ u. pure-Never completed transient_failure transient_not u t) r in
            analyse_inv page (services.get_html_data page) u t
              (same→eq page.normalized_url key_url e) refl z

    fetch_inv :
        (o : Outcome (Option Page)) (s t : Session W)
        → after_fetch server c services page_key key_url token o s ≡ (ok completed, t)
        → Reconciled t
    unfolding after_fetch
    fetch_inv (ok none) s t q = absurd (quarantine-Never s t q)
    fetch_inv (ok (some page)) s t q = index_inv page s t q
    fetch_inv (raise (page_decode_error m)) s t q = absurd (quarantine-Never s t q)
    fetch_inv (raise connection_error) s t q = cc
    fetch_inv (raise (response_error m)) s t q = cc
    fetch_inv (raise redis_error) s t q = cc
    fetch_inv (raise lock_lost) s t q = cc
    fetch_inv (raise value_error) s t q = cc
    fetch_inv (raise key_error) s t q = cc
    fetch_inv (raise mongo_error) s t q = cc
    fetch_inv (raise (invalid_key m)) s t q = cc
    fetch_inv (raise (invalid_work m)) s t q = cc

  -- How a completed claim was processed, from the state s to the state t.
  pub record IsCompleted (s t : Session W) : Type 0 where
    pub id : Text
    pub key_url : Text
    pub encoded : Text
    pub renewed : Session W
    pub acquired : Session W
    pub worked : Session W
    pub parsed : parse_page_publication_key page_key ≡ some (id, key_url, encoded)
    pub renew : renew_owner indexer server c s ≡ (ok true, renewed)
    pub acquire :
        services.acquire_canonical_lock key_url (canonical_token server c services id) id renewed
        ≡ (ok true, acquired)
    pub reconciled :
        (u : Session W) × IsReconciled key_url (canonical_token server c services id) u worked
    pub released :
        (release_canonical server c services page_key key_url
          (canonical_token server c services id)
          worked).1
        ≡ t

  -- When process_claim reports a completed page, it has, in this order, read the claim as a
  -- publication's key, renewed the owner lock, taken the canonical lock of the key's URL, replaced the
  -- search state of an indexable page of that URL, read that no signal has arrived, renewed the owner
  -- lock again and found the canonical lock its own, completed the claim in Redis, and asked for the
  -- release of the canonical lock, which may have failed.
  pub process_claim_completed :
      (s t : Session W)
      → process_claim server c services page_key s ≡ (ok completed, t)
      → IsCompleted s t
  unfolding process_claim process_parsed locked_work
  process_claim_completed s t h = go (parse_page_publication_key page_key) refl h
    where
      go :
          (o : Option (Text × Text × Text))
          → parse_page_publication_key page_key ≡ o
          → process_parsed server c services page_key o s ≡ (ok completed, t)
          → IsCompleted s t
      go none e q = cc
      go (some (id, key_url, encoded)) e q =
          let (u, x, y) =
            true_inv (renew_owner indexer server c) (pure transient_failure) (locked id key_url) s
              completed t (λ u. pure-Never completed transient_failure no u t) q in
          let (v, z, r) =
            true_inv (takes id key_url) (pure transient_failure) (work id key_url) u completed t
              (λ u. pure-Never completed transient_failure no u t) y in
          let (w, a, b) =
            finally_inv (locked_work server c services page_key key_url (token id))
              (release_canonical server c services page_key key_url (token id)) v completed t r in
          let (o, (x', f, g)) =
            bind_inv (attempt (services.get_page_data page_key))
              (after_fetch server c services page_key key_url (token id)) v completed w a in
          record {
            id = id;
            key_url = key_url;
            encoded = encoded;
            renewed = u;
            acquired = v;
            worked = w;
            parsed = e;
            renew = x;
            acquire = or_else_inv (services.acquire_canonical_lock key_url (token id) id) u v z;
            reconciled = fetch_inv key_url (token id) o x' w g;
            released = b;
          }
        where
          no : transient_failure ≢ completed
          no h = cc

          token : Text → Text
          token id = canonical_token server c services id

          work : Text → Text → Exec W Verdict
          work id key_url =
              finally (locked_work server c services page_key key_url (token id))
                (release_canonical server c services page_key key_url (token id))

          takes : Text → Text → Exec W Bool
          takes id key_url = or_else (services.acquire_canonical_lock key_url (token id) id) false

          locked : Text → Text → Exec W Verdict
          locked id key_url = takes id key_url >>= Branch (pure transient_failure) (work id key_url)
