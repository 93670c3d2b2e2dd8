-- ===== src/Datapath/Ends.antt =====
-- pkg/datapath/config.go and migration.go: the cutover, and the two ends of a migration.
use minuteman.Base.{ℕ, ◌≡◌, ◌≢◌, refl, sym, ap, ◌∙◌, arith, ◌⊎◌, inl, inr, Bool, true, ◌==◌, ==_iff}
use minuteman.Base.Maps.{Map, delete}
use minuteman.Datapath.{
  Loader, Ctrl, Endpoints, pack, cutover, complete_migration, abort_migration, mig_priming,
  mig_draining, wrong_state, slot_key, next, clear_next_hop, write_ctrl,
}
use minuteman.Datapath.Words.{IsCtrl}
use minuteman.Datapath.Phases.{
  Phase, steady, priming, draining, other, At, live, written, Read, reading, cuts_over, to_draining,
  Refined, Unmoved, unmoved, steady_on, in_use, settled,
}
use minuteman.Datapath.Triples.{
  Ensures, next-Ensures, Ensures-weaken, Same, Same-trans, ctrl, read_ctrl-Ensures,
  write_ctrl-Ensures, require-Ensures, clear_next_hop-Ensures,
}

module _ (fails : ℕ → Bool) (s : Loader) where
  cut :
      (c : Ctrl) (hops : Map ℕ Endpoints) (p : Phase) (t : Loader)
      → Read c hops p
      → (c.state == mig_priming) ≡ true
      → t.migration_ctrl
        ≡ pack (record {
          active_slot = other c.active_slot;
          old_slot = c.active_slot;
          state = mig_draining;
          epoch = c.epoch;
        })
      → t.next_hops ≡ hops
      → Refined cuts_over p t
  cut c hops (steady e) t r k word same =
      absurd (omega (arith, (==_iff c.state mig_priming).0 k, r.holds.0))
  cut c hops (draining e old) t r k word same =
      absurd (omega (arith, (==_iff c.state mig_priming).0 k, r.holds.0))
  cut c hops (priming e new) t r k word same =
      let c' : Ctrl = record {
        active_slot = other c.active_slot;
        old_slot = c.active_slot;
        state = mig_draining;
        epoch = c.epoch;
      } in
      let fits : IsCtrl c' = record {
        active_fits = omega arith;
        old_fits = r.fits.active_fits;
        state_fits = omega arith;
        epoch_fits = r.fits.epoch_fits;
      } in
      (
        draining new e,
        to_draining,
        written t c' (draining new e) fits (omega arith) word
            (let (at, now, later) = r.holds in rw same (refl, later, omega (arith, r.low), now)),
      )

  pub cutover-Refined :
      (p : Phase) → At s p → Ensures (λ _ t. Refined cuts_over p t) (Unmoved p) (cutover fails s)
  unfolding cutover
  cutover-Refined p v =
      next-Ensures (read_ctrl-Ensures fails s) (λ t h. unmoved s t p v h)
        (λ c t (ec, st).
          next-Ensures (require-Ensures fails t _ wrong_state)
            (λ u h. unmoved s u p v (Same-trans s t u st h))
            (λ _ u (k, tu).
              let su = Same-trans s t u st tu in
              Ensures-weaken (write_ctrl-Ensures fails u _)
                (λ w h. unmoved s w p v (Same-trans s u w su h))
                (λ _ w (word, hops).
                  cut c s.next_hops p w (reading s c p ec v) k word (hops ∙ su.1))))

module _ (fails : ℕ → Bool) (s : Loader) (p : Phase) (v : At s p) where
  -- The end of a migration: steady where new flows go, and then the other slot freed.
  retire :
      (c : Ctrl) (slot : ℕ) (u : Loader)
      → Read c s.next_hops p
      → slot ≢ c.active_slot
      → Same s u
      → Ensures
          (λ _ t. At t (steady (live p)))
          (Unmoved p)
          (next (λ _. clear_next_hop fails slot) (write_ctrl fails (steady_on c.active_slot c) u))
  retire c slot u r far su =
      next-Ensures (write_ctrl-Ensures fails u _) (λ w h. unmoved s w p v (Same-trans s u w su h))
        (λ _ w (word, hops).
          Ensures-weaken (clear_next_hop-Ensures fails w slot)
            (λ x (a, b). (steady (live p), inr refl, freed w x word (hops ∙ su.1) a b))
            (λ _ x (a, b). freed w x word (hops ∙ su.1) a (inr b)))
    where
      freed :
          (w x : Loader)
          → w.migration_ctrl ≡ pack (steady_on c.active_slot c)
          → w.next_hops ≡ s.next_hops
          → x.migration_ctrl ≡ w.migration_ctrl
          → (x.next_hops ≡ w.next_hops) ⊎ (x.next_hops ≡ delete slot w.next_hops)
          → At x (steady (live p))
      freed w x word hops a (inl b) =
          settled x c.active_slot c (live p) r.fits r.low (a ∙ word)
            (rw (b, hops) (in_use c s.next_hops p r.holds))
      freed w x word hops a (inr b) =
          settled x c.active_slot c (live p) r.fits r.low (a ∙ word)
            (rw (b, hops) (ground (arith, in_use c s.next_hops p r.holds)))

  pub complete-At :
      Ensures
        (λ _ t. ((ctrl s).state ≡ mig_draining) × At t (steady (live p)))
        (Unmoved p)
        (complete_migration fails s)
  unfolding complete_migration
  complete-At =
      next-Ensures (read_ctrl-Ensures fails s) (λ t h. unmoved s t p v h)
        (λ c t (ec, st).
          next-Ensures (require-Ensures fails t _ wrong_state)
            (λ u h. unmoved s u p v (Same-trans s t u st h))
            (λ _ u (k, tu).
              let r = reading s c p ec v in
              Ensures-weaken (retire c c.old_slot u r (apart c p r k) (Same-trans s t u st tu))
                (λ w h. h)
                (λ _ w h.
                  (sym (ap (λ (d : Ctrl). d.state) ec) ∙ (==_iff c.state mig_draining).0 k, h))))
    where
      apart :
          (c : Ctrl) (q : Phase)
          → Read c s.next_hops q
          → (c.state == mig_draining) ≡ true
          → c.old_slot ≢ c.active_slot
      apart c (steady e) r k = absurd (omega (arith, (==_iff c.state mig_draining).0 k, r.holds.0))
      apart c (priming e new) r k =
          absurd (omega (arith, (==_iff c.state mig_draining).0 k, r.holds.0))
      apart c (draining e old) r k =
          let (at, now, which, pinned) = r.holds in λ h. omega (arith, which, h, r.low)

  pub abort-At :
      Ensures
        (λ _ t. ((ctrl s).state ≡ mig_priming) × At t (steady (live p)))
        (Unmoved p)
        (abort_migration fails s)
  unfolding abort_migration
  abort-At =
      next-Ensures (read_ctrl-Ensures fails s) (λ t h. unmoved s t p v h)
        (λ c t (ec, st).
          next-Ensures (require-Ensures fails t _ wrong_state)
            (λ u h. unmoved s u p v (Same-trans s t u st h))
            (λ _ u (k, tu).
              let r = reading s c p ec v in
              Ensures-weaken
                (retire c (other c.active_slot) u r (λ h. omega (arith, r.low, h))
                  (Same-trans s t u st tu))
                (λ w h. h)
                (λ _ w h.
                  (sym (ap (λ (d : Ctrl). d.state) ec) ∙ (==_iff c.state mig_priming).0 k, h))))
