-- ===== src/Datapath/Starts.antt =====
-- pkg/datapath/config.go and migration.go: the start of a migration, and the hard switch.
use Prim.Native.Nat.{bit_and}
use minuteman.Base.{
  ℕ, ◌+◌, ◌≡◌, refl, sym, ap, ◌∙◌, arith, inl, inr, Bool, true, false, Bool-cases, ◌==◌, ==_iff,
}
use minuteman.Base.Maps.{insert}
use minuteman.Datapath.{
  Loader, Ctrl, Endpoints, pack, unpack, begin_migration, end_migration, switch_aftr, next,
  write_ctrl, write_next_hop, mig_steady, mig_priming, mig_draining, in_progress, slot_key, pure,
  next, write_ctrl,
}
use minuteman.Datapath.Ends.{complete-At, abort-At}
use minuteman.Datapath.Words.{low_byte}
use minuteman.Datapath.Phases.{
  Phase, steady, priming, draining, other, At, live, Same-At, written, reading, begins, switches,
  to_priming, at_once, Refined, Unmoved, unmoved, steady_on, settled,
}
use minuteman.Datapath.Triples.{
  Ensures, returns, next-Ensures, Ensures-weaken, Same-trans, ctrl, read_ctrl-Ensures,
  write_ctrl-Ensures, require-Ensures, write_next_hop-Ensures, validate-Ensures,
}

-- A slot outside use takes new endpoints, and the phase stays.
spare :
    (s t : Loader) (p : Phase) (e : Endpoints)
    → At s p
    → (ctrl s).state ≡ mig_steady
    → t.migration_ctrl ≡ s.migration_ctrl
    → t.next_hops ≡ insert (other (ctrl s).active_slot) e s.next_hops
    → At t p
spare s t (steady cur) e v k a b = record {
  slot_fits = rw a v.slot_fits;
  holds = rw (a, b) (ground (arith, v.holds, v.slot_fits));
}
spare s t (priming cur new) e v k a b = absurd (omega (arith, k, v.holds.0))
spare s t (draining cur old) e v k a b = absurd (omega (arith, k, v.holds.0))

module _ (fails : ℕ → Bool) (s : Loader) (p : Phase) (v : At s p) where
  begun :
      (c : Ctrl) (e : Endpoints) (q : Phase) (t u : Loader)
      → c ≡ ctrl s
      → At s q
      → (c.state == mig_steady) ≡ true
      → t.next_hops ≡ insert (other c.active_slot) e s.next_hops
      → u.next_hops ≡ t.next_hops
      → u.migration_ctrl
        ≡ pack (record {
          active_slot = c.active_slot;
          old_slot = c.active_slot;
          state = mig_priming;
          epoch = bit_and (c.epoch + 1) 0xff;
        })
      → Refined (begins e) q u
  begun c e (steady cur) t u ec w k a b word =
      let r = reading s c (steady cur) ec w in
      let (at, now) = r.holds in
      (
        priming cur e,
        to_priming,
        written u _ (priming cur e)
            (record {
              active_fits = r.fits.active_fits;
              old_fits = r.fits.active_fits;
              state_fits = omega arith;
              epoch_fits = omega (arith, low_byte (c.epoch + 1));
            })
            r.low word (rw (b, a) (ground (arith, now, r.low))),
      )
  begun c e (priming cur new) t u ec w k a b word =
      absurd (
        omega
          (arith, (==_iff c.state mig_steady).0 k, (reading s c (priming cur new) ec w).holds.0))
  begun c e (draining cur old) t u ec w k a b word = absurd (
      omega (arith, (==_iff c.state mig_steady).0 k, (reading s c (draining cur old) ec w).holds.0))

  pub begin-Refined :
      (e : Endpoints)
      → Ensures (λ _ t. Refined (begins e) p t) (Unmoved p) (begin_migration fails e s)
  unfolding begin_migration
  begin-Refined e =
      next-Ensures (validate-Ensures fails s e) (λ t h. unmoved s t p v h)
        (λ _ t (x, y, st).
          next-Ensures (read_ctrl-Ensures fails t) (λ u h. unmoved s u p v (Same-trans s t u st h))
            (λ c u (ec, tu).
              let su = Same-trans s t u st tu in
              next-Ensures (require-Ensures fails u _ in_progress)
                (λ w h. unmoved s w p v (Same-trans s u w su h))
                (λ _ w (k, uw).
                  let sw = Same-trans s u w su uw in
                  next-Ensures (write_next_hop-Ensures fails w _ e)
                    (λ x h. unmoved s x p v (Same-trans s w x sw h))
                    (λ _ x (dead, a, b).
                      let known : c ≡ ctrl s = ec ∙ ap unpack st.0 in
                      let put : x.next_hops ≡ insert (other c.active_slot) e s.next_hops =
                        b ∙ ap (insert (other c.active_slot) e) sw.1 in
                      Ensures-weaken (write_ctrl-Ensures fails x _)
                        (λ y h. (
                          p,
                          inl refl,
                          spare s y p e v
                              (sym (ap (λ (d : Ctrl). d.state) known)
                                ∙ (==_iff c.state mig_steady).0 k)
                              (h.0 ∙ a ∙ sw.0)
                              (h.1
                                ∙ put
                                ∙ ap (λ (d : Ctrl). insert (other d.active_slot) e s.next_hops)
                                    known),
                        ))
                        (λ _ y (word, h). begun c e p x y known v k put h word)))))

  -- A migration found in progress is ended first.
  end-Ensures :
      Ensures (λ _ t. At t (steady (live p))) (Unmoved p) (end_migration fails (ctrl s).state s)
  unfolding end_migration pure
  end-Ensures = elim (Bool-cases ((ctrl s).state == mig_priming)) [
    | inl h ↦ rw h (Ensures-weaken (abort-At fails s p v) (λ t k. k) (λ _ t k. k.1))
    | inr h ↦ elim (Bool-cases ((ctrl s).state == mig_draining)) [
      | inl k ↦ rw (h, k) (Ensures-weaken (complete-At fails s p v) (λ t k. k) (λ _ t k. k.1))
      | inr k ↦ rw (h, k) (returns (resting p v h k))
    ]
  ]
    where
      resting :
          (q : Phase)
          → At s q
          → ((ctrl s).state == mig_priming) ≡ false
          → ((ctrl s).state == mig_draining) ≡ false
          → At s (steady (live q))
      resting (steady e) w h k = unfold live in w
      resting (priming e new) w h k =
          let (at, now, later) = w.holds in absurd (ground (arith, at, h))
      resting (draining e old) w h k =
          let (at, now, which, pinned) = w.holds in absurd (ground (arith, at, k))

-- The new endpoints go into the slot that is not in use, which then is.
module _ (fails : ℕ → Bool) (s : Loader) (cur : Endpoints) (v : At s (steady cur)) where
  replace :
      (e : Endpoints) (c : Ctrl)
      → c ≡ ctrl s
      → Ensures
          (λ _ t. At t (steady e))
          (λ t. At t (steady cur))
          (next
            (λ _. write_ctrl fails (steady_on (other c.active_slot) c))
            (write_next_hop fails (other c.active_slot) e s))
  replace e c ec =
      next-Ensures (write_next_hop-Ensures fails s _ e) (λ x h. Same-At s x _ h v)
        (λ _ x (dead, a, b).
          Ensures-weaken (write_ctrl-Ensures fails x _)
            (λ y h.
              spare s y (steady cur) e v v.holds.0 (h.0 ∙ a)
                (h.1 ∙ b ∙ ap (λ (d : Ctrl). insert (other d.active_slot) e s.next_hops) ec))
            (λ _ y (word, h).
              settled y (other c.active_slot) c e (reading s c (steady cur) ec v).fits (omega arith)
                word (rw (h, b) (ground arith))))

module _ (fails : ℕ → Bool) (s : Loader) (p : Phase) (v : At s p) where
  pub switch-Refined :
      (e : Endpoints)
      → Ensures (λ _ t. Refined (switches e) p t) (Unmoved p) (switch_aftr fails e s)
  unfolding switch_aftr
  switch-Refined e =
      next-Ensures (validate-Ensures fails s e) (λ t h. unmoved s t p v h)
        (λ _ t (x, y, st).
          next-Ensures (read_ctrl-Ensures fails t) (λ u h. unmoved s u p v (Same-trans s t u st h))
            (λ c u (ec, tu).
              let su = Same-trans s t u st tu in
              next-Ensures (ended c u (ec ∙ ap unpack (sym tu.0)) (Same-At s u p su v)) (λ w h. h)
                (λ _ w at.
                  next-Ensures (read_ctrl-Ensures fails w)
                    (λ x h. (steady (live p), inr refl, Same-At w x _ h at))
                    (λ d x (ed, wx).
                      let at' = Same-At w x _ wx at in
                      Ensures-weaken (replace fails x (live p) at' e d (ed ∙ ap unpack (sym wx.0)))
                        (λ y h. (steady (live p), inr refl, h))
                        (λ _ y h. (steady e, at_once, h))))))
    where
      ended :
          (c : Ctrl) (u : Loader)
          → c ≡ ctrl u
          → At u p
          → Ensures (λ _ t. At t (steady (live p))) (Unmoved p) (end_migration fails c.state u)
      ended c u e at = rw e (end-Ensures fails u p at)
