-- ===== src/Datapath/Triples.antt =====
-- pkg/datapath/config.go: what one call on the maps does, whatever the kernel refuses.
use minuteman.Base.{
  ℕ, ◌≡◌, refl, sym, ap, ◌∙◌, ◌&&◌, arith, ◌⊎◌, inl, inr, Bool, true, false, not, none, Bool-cases,
}
use minuteman.Base.Maps.{insert, delete}
use minuteman.Netip.{is_6, is_4_in_6}
use minuteman.Datapath.{
  Loader, Act, Result, ok, err, Ctrl, Endpoints, next, pack, unpack, reads, writes, read_ctrl,
  write_ctrl, write_next_hop, clear_next_hop, clear_tunnel_pmtu, slot_is_live, resolvable, require,
  pure, refuse, Fault, slot_live, not_ipv6, is_some, slot_key, validate_softwire_addrs,
}

-- `Q` holds of what a call returns, or `E` of the state in which it fails.
pub data Ensures {ℓ κ} {A : Type ℓ} (Q : A → Loader → Type κ) (E : Loader → Type κ)
    : Result A × Loader → Type (ℓ ⊔ κ) where
  returns : {a : A} {s : Loader} → Q a s → Ensures Q E (ok a, s)
  faults : {x : Fault} {s : Loader} → E s → Ensures Q E (err x, s)

-- A call and then another one on what it returns.
pub next-Ensures {ℓ ι κ} :
    {A : Type ℓ} {B : Type ι} {f : A → Act B} {r : Result A × Loader} {Q : A → Loader → Type κ}
    {R : B → Loader → Type κ} {D E : Loader → Type κ}
    → Ensures Q D r
    → ((t : Loader) → D t → E t)
    → ((a : A) (t : Loader) → Q a t → Ensures R E (f a t))
    → Ensures R E (next f r)
unfolding next
next-Ensures (returns {a} {s} h) l k = k a s h
next-Ensures (faults {x} {s} h) l k = faults (l s h)

pub Ensures-weaken {ℓ κ} :
    {A : Type ℓ} {r : Result A × Loader} {Q R : A → Loader → Type κ} {D E : Loader → Type κ}
    → Ensures Q D r
    → ((t : Loader) → D t → E t)
    → ((a : A) (t : Loader) → Q a t → R a t)
    → Ensures R E r
Ensures-weaken (returns {a} {s} h) l k = returns (k a s h)
Ensures-weaken (faults {x} {s} h) l k = faults (l s h)

-- Two states with the same control word and the same endpoints.
abbrev pub Same : Loader → Loader → Type 0
Same s t = (t.migration_ctrl ≡ s.migration_ctrl) × (t.next_hops ≡ s.next_hops)

abbrev pub ctrl : Loader → Ctrl
ctrl s = unpack s.migration_ctrl

module _ (fails : ℕ → Bool) (s : Loader) where
  writes-Ensures : (f : Loader → Loader) → Ensures (λ _ t. Same (f s) t) (Same s) (writes fails f s)
  unfolding writes
  writes-Ensures f = elim (Bool-cases (fails s.calls)) [
    | inl h ↦ rw h (faults (refl, refl))
    | inr h ↦ rw h (returns (refl, refl))
  ]

  pub read_ctrl-Ensures : Ensures (λ c t. (c ≡ ctrl s) × Same s t) (Same s) (read_ctrl fails s)
  unfolding read_ctrl reads
  read_ctrl-Ensures = elim (Bool-cases (fails s.calls)) [
    | inl h ↦ rw h (faults (refl, refl))
    | inr h ↦ rw h (returns (refl, (refl, refl)))
  ]

  pub write_ctrl-Ensures :
      (c : Ctrl)
      → Ensures
          (λ _ t. (t.migration_ctrl ≡ pack c) × (t.next_hops ≡ s.next_hops))
          (Same s)
          (write_ctrl fails c s)
  unfolding write_ctrl
  write_ctrl-Ensures c = writes-Ensures (λ s. record s { migration_ctrl = pack c })

  pub require-Ensures :
      (b : Bool) (x : Fault) → Ensures (λ _ t. (b ≡ true) × Same s t) (Same s) (require b x s)
  unfolding require pure refuse
  require-Ensures true x = returns (refl, (refl, refl))
  require-Ensures false x = faults (refl, refl)

  -- Whether a slot is live is read off the maps.
  slot_is_live-Ensures :
      (c : Ctrl) (slot : ℕ)
      → Ensures
          (λ live t. (live ≡ false → resolvable c slot ≡ true → s.next_hops slot ≡ none) × Same s t)
          (Same s)
          (slot_is_live fails c slot s)
  unfolding slot_is_live reads pure is_some
  slot_is_live-Ensures c slot = elim (Bool-cases (resolvable c slot)) [
    | inr h ↦ rw h (returns (λ l k. cc, (refl, refl)))
    | inl h ↦ elim (Bool-cases (fails s.calls)) [
      | inl f ↦ rw (h, f) (faults (refl, refl))
      | inr f ↦ rw (h, f) (returns (λ l k. ground arith, (refl, refl)))
    ]
  ]

  clear_tunnel_pmtu-Ensures :
      (slot : ℕ) → Ensures (λ _ t. Same s t) (Same s) (clear_tunnel_pmtu fails slot s)
  unfolding clear_tunnel_pmtu
  clear_tunnel_pmtu-Ensures slot =
      writes-Ensures (λ s. record s { tunnel_pmtus = delete slot s.tunnel_pmtus })

-- What a failed call leaves alone stays so through the calls before it.
pub Same-trans : (s t u : Loader) → Same s t → Same t u → Same s u
Same-trans s t u h k = (k.0 ∙ h.0, k.1 ∙ h.1)

module _ (fails : ℕ → Bool) (s : Loader) where
  -- Only a slot that is not live is written.
  pub write_next_hop-Ensures :
      (slot : ℕ) (e : Endpoints)
      → Ensures
          (λ _ t.
            (resolvable (ctrl s) slot ≡ true → s.next_hops slot ≡ none)
            × (t.migration_ctrl ≡ s.migration_ctrl)
            × (t.next_hops ≡ insert slot e s.next_hops))
          (Same s)
          (write_next_hop fails slot e s)
  unfolding write_next_hop
  write_next_hop-Ensures slot e =
      next-Ensures (read_ctrl-Ensures fails s) (λ t h. h)
        (λ c t (ec, st).
          next-Ensures (slot_is_live-Ensures fails t c slot) (λ u h. Same-trans s t u st h)
            (λ live u (dead, tu).
              let su = Same-trans s t u st tu in
              next-Ensures (require-Ensures fails u (not live) slot_live)
                (λ v h. Same-trans s u v su h)
                (λ _ v (off, uv).
                  let sv = Same-trans s u v su uv in
                  next-Ensures (clear_tunnel_pmtu-Ensures fails v slot)
                    (λ w h. Same-trans s v w sv h)
                    (λ _ w vw.
                      let sw = Same-trans s v w sv vw in
                      Ensures-weaken (writes-Ensures fails w _) (λ x h. Same-trans s w x sw h)
                        (λ _ x wx. (
                          free c t live ec st dead off,
                          wx.0 ∙ sw.0,
                          wx.1 ∙ ap (insert slot e) sw.1,
                        ))))))
    where
      free :
          (c : Ctrl) (t : Loader) (live : Bool)
          → c ≡ ctrl s
          → Same s t
          → (live ≡ false → resolvable c slot ≡ true → t.next_hops slot ≡ none)
          → not live ≡ true
          → resolvable (ctrl s) slot ≡ true
          → s.next_hops slot ≡ none
      free c t true ec st dead off h = cc
      free c t false ec st dead off h =
          ap (λ m. m slot) (sym st.1) ∙ dead refl (ap (λ d. resolvable d slot) ec ∙ h)

  -- The slot is freed, or the call fails before or after.
  pub clear_next_hop-Ensures :
      (slot : ℕ)
      → Ensures
          (λ _ t. (t.migration_ctrl ≡ s.migration_ctrl) × (t.next_hops ≡ delete slot s.next_hops))
          (λ t.
            (t.migration_ctrl ≡ s.migration_ctrl)
            × ((t.next_hops ≡ s.next_hops) ⊎ (t.next_hops ≡ delete slot s.next_hops)))
          (clear_next_hop fails slot s)
  unfolding clear_next_hop
  clear_next_hop-Ensures slot =
      next-Ensures (writes-Ensures fails s _) (λ t h. (h.0, inl h.1))
        (λ _ t st.
          Ensures-weaken (clear_tunnel_pmtu-Ensures fails t slot)
            (λ u tu. (tu.0 ∙ st.0, inr (tu.1 ∙ st.1))) (λ _ u tu. (tu.0 ∙ st.0, tu.1 ∙ st.1)))

  -- Refused addresses change nothing.
  pub validate-Ensures :
      (e : Endpoints)
      → Ensures
          (λ _ t.
            (is_6 e.b4 && not (is_4_in_6 e.b4) ≡ true)
            × (is_6 e.aftr && not (is_4_in_6 e.aftr) ≡ true)
            × Same s t)
          (Same s)
          (validate_softwire_addrs e s)
  unfolding validate_softwire_addrs
  validate-Ensures e =
      next-Ensures (require-Ensures fails s _ not_ipv6) (λ t h. h)
        (λ _ t (a, st).
          Ensures-weaken (require-Ensures fails t _ not_ipv6) (λ u tu. Same-trans s t u st tu)
            (λ _ u (b, tu). (a, b, Same-trans s t u st tu)))
