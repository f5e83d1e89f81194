-- ===== src/Backlinks/Cycle/Fill/Safety.antt =====
-- `_fill_pending_keys` loses nothing from the datastores.
use mifolyo.Base.{ℕ, ◌≡◌, refl, Bool, List, subst, sym}
use mifolyo.Base.Texts.{Bytes, Text}
use mifolyo.Backlinks.Config.{ProcessingLimits}
use mifolyo.Backlinks.Errors.{Result, ok, raise}
use mifolyo.Backlinks.Datastore.{Datastore, Keeps, IsReliable}
use mifolyo.Backlinks.Datastore.Laws.{Keeps-refl, Keeps-trans}
use mifolyo.Backlinks.Redis.{scan_backlink_keys}
use mifolyo.Backlinks.Redis.Laws.{scan_backlink_keys-Keeps}
use mifolyo.Backlinks.Cycle.Vars.{Cycle}
use mifolyo.Backlinks.Cycle.Fill.Rule.{fill_inv}
use mifolyo.Backlinks.Cycle.Fill.{scanned, scan_keys, fill}

module _ {W : Type 0} (d : Datastore W) (l : ProcessingLimits) {pending : W → Bytes → Bytes → Bool}
    {stored : W → Text → Text → Bool} (v : IsReliable pending stored d) where
  scanned_world :
      (c : Cycle W) (r : Result (ℕ × List Bytes)) (w : W) → (scanned d l c (r, w)).1.world ≡ w
  unfolding scanned
  scanned_world c (raise e) w = refl
  scanned_world c (ok (k, ks)) w = refl

  scan_keys-Keeps : (c : Cycle W) → Keeps pending stored c.world (scan_keys d l c).1.world
  unfolding scan_keys
  scan_keys-Keeps c =
      let (r, w) =
        scan_backlink_keys d c.state.key_cursor l.scan_count_hint l.max_scan_response_items
          c.world in
      subst (Keeps pending stored c.world) (sym (scanned_world c r w)) (
        scan_backlink_keys-Keeps d v c.state.key_cursor l.scan_count_hint l.max_scan_response_items
          c.world)

  -- Reading the keys loses nothing, however the scan ends.
  pub fill-Keeps : (c : Cycle W) → Keeps pending stored c.world (fill d l c).1.world
  fill-Keeps c =
      fill_inv d l (λ c'. Keeps pending stored c.world c'.world)
        (λ c' h. Keeps-trans h (v.is_set_keeps c'.world))
        (λ c' room h. Keeps-trans h (scan_keys-Keeps c')) (λ reason c' h. h) c (Keeps-refl c.world)
