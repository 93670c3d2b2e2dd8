-- ===== src/Ndppd/InStep.antt =====
-- internal/ndppd: the host routes are those of the confirmed targets.
use minuteman.Base.{
  ℕ, ◌≡◌, refl, sym, ap, ap₂, ◌∙◌, subst, arith, List, [], ◌∷◌, ◌++◌, Bool-cases, inl, inr,
  Option-cases, if◌then◌else◌, ◌==◌,
}
use minuteman.Base.Maps.{insert}
use minuteman.Netip.{Addr, addr_key}
use minuteman.NdProxy.{
  State, ActiveEntry, Reply, Expired, on_wan_solicit, on_lan_advert, store, sweep,
}
use minuteman.NdProxy.Wire.{parse_advertisement, parse_solicitation_packet}
use minuteman.NdProxy.Entries.{
  iface_of, iface_of-store, IsMap, store-IsMap, left_by, left_by-sweep_active,
  active-on_wan_solicit, on_lan_advert-cases, sweep-active, sweep_active-IsMap,
}
use minuteman.Ndppd.{
  Lan, Proxy, Message, received, swept, send_failed, other, Effect, arm, install, next_sweep,
  advertise, probe, probe_each, remove_each, solicited, confirmed, advertised, sweep_now, armed,
  from_lan, handle_info, HostRoutes, handle_cast, handle_casts,
}
use minuteman.Ndppd.Casts.{
  handle_casts-append, handle_casts-remove_each, handle_casts-probe_each,
  handle_casts-advertise_all, handle_casts-if,
}

-- The routes are the interfaces of the confirmed targets, each of which has one entry.
pub record InStep (st : State) (routes : HostRoutes) : Type 0 where
  pub entries : IsMap st.active
  pub same : (t : Addr) → routes t ≡ iface_of st.active t

module _ (p : Proxy) where
  -- The outcome of a handler, its casts carried out.
  abbrev After : HostRoutes → State × List Effect → Type 0
  After routes o = InStep o.0 (handle_casts routes o.1)

  kept :
      (st st' : State) (routes routes' : HostRoutes)
      → InStep st routes
      → st'.active ≡ st.active
      → routes' ≡ routes
      → InStep st' routes'
  kept st st' routes routes' v e f = record {
    entries = subst IsMap (sym e) v.entries;
    same = λ t. ap (λ (r : HostRoutes). r t) f ∙ v.same t ∙ ap (λ T. iface_of T t) (sym e);
  }

  unchanged : (st : State) (routes : HostRoutes) → InStep st routes → After routes (st, [])
  unfolding handle_casts
  unchanged st routes v = v

  solicited-InStep :
      (st : State) (routes : HostRoutes) (now : ℕ) (packet : List ℕ)
      → InStep st routes
      → After routes (solicited p st now packet)
  unfolding solicited
  solicited-InStep st routes now packet v = elim (Option-cases (parse_solicitation_packet packet)) [
    | inl e ↦ rw (e, solicited) (unchanged st routes v)
    | inr ((target, source), e) ↦
        rw (e, solicited)
          (kept st _ routes _ v (active-on_wan_solicit st now target source) (
            handle_casts-append routes _ _
            ∙ ap
                (λ (r : HostRoutes).
                  handle_casts r
                    (if (on_wan_solicit st now target source).1 then probe p target else []))
                (handle_casts-advertise_all p routes (on_wan_solicit st now target source).0)
            ∙ handle_casts-if p routes (on_wan_solicit st now target source).1 target))
  ]

  -- The route of a confirmed target is installed.
  installed :
      (st : State) (routes : HostRoutes) (target : Addr) (a : ActiveEntry) (t : Addr)
      → InStep st routes
      → handle_cast routes (install target a.iface) t ≡ iface_of (store st.active target a) t
  unfolding handle_cast
  installed st routes target a t v = ground (arith, v.same t, iface_of-store st.active target t a)

  entered :
      (st st' : State) (routes : HostRoutes) (target : Addr) (a : ActiveEntry) (r : Reply)
      → InStep st routes
      → r.target ≡ target
      → r.iface ≡ a.iface
      → st'.active ≡ store st.active target a
      → InStep st' (handle_casts routes (advertise p r ∷ install r.target r.iface ∷ []))
  unfolding handle_casts advertise handle_cast
  entered st st' routes target a r v tgt ifc act = record {
    entries = subst IsMap (sym act) (store-IsMap st.active target a v.entries);
    same = λ t.
        ap₂ (λ x y. insert x y routes t) tgt ifc
        ∙ (unfold handle_cast in installed st routes target a t v)
        ∙ ap (λ T. iface_of T t) (sym act);
  }

  confirmed-InStep :
      (st : State) (routes : HostRoutes) (now : ℕ) (l : Lan) (target : Addr)
      → InStep st routes
      → After routes (confirmed p st (on_lan_advert st now l.name target))
  unfolding confirmed
  confirmed-InStep st routes now l target v = elim (on_lan_advert-cases st now l.name target) [
    | inl e ↦ rw (e, confirmed) (unchanged st routes v)
    | inr (r, e, tgt, ifc, act) ↦
        rw (e, confirmed)
          (entered st _ routes target (record { iface = l.name; confirmed_at = now }) r v tgt ifc
            act)
  ]

  -- The effects of a sweep, in their order.
  swept_casts :
      (routes : HostRoutes) (again : List Addr) (es : List Expired) (after : ℕ)
      → handle_casts routes (probe_each p again ++ (remove_each p es ++ next_sweep after ∷ []))
        ≡ handle_casts routes (remove_each p es)
  swept_casts routes again es after =
      handle_casts-append routes (probe_each p again) (remove_each p es ++ next_sweep after ∷ [])
      ∙ ap (λ (r : HostRoutes). handle_casts r (remove_each p es ++ next_sweep after ∷ []))
          (handle_casts-probe_each p routes again)
      ∙ handle_casts-append routes (remove_each p es) (next_sweep after ∷ [])
      ∙ (unfold handle_casts handle_cast in refl)

  swept-InStep :
      (st : State) (routes : HostRoutes) (now : ℕ)
      → InStep st routes
      → After routes (sweep_now p st now)
  unfolding sweep_now
  swept-InStep st routes now v =
      let (act, exp) = sweep-active st now in
      record {
        entries = subst IsMap (sym act) (sweep_active-IsMap now st.active v.entries);
        same = λ t.
            ap (λ (r : HostRoutes). r t) (swept_casts routes (sweep st now).0 (sweep st now).2 _)
            ∙ handle_casts-remove_each p routes (sweep st now).2 t
            ∙ ap₂ (λ es r. left_by es t r) exp (v.same t)
            ∙ left_by-sweep_active now st.active t v.entries
            ∙ ap (λ T. iface_of T t) (sym act);
      }

  armed-InStep :
      (routes : HostRoutes) (sock : ℕ) (o : State × List Effect)
      → After routes o
      → After routes (armed p sock o)
  unfolding armed
  armed-InStep routes sock (st, effs) v =
      kept st st (handle_casts routes effs) _ v refl (
        handle_casts-append routes effs (arm sock ∷ []) ∙ (unfold handle_casts handle_cast in refl))

  advertised-InStep :
      (st : State) (routes : HostRoutes) (now : ℕ) (l : Lan) (msg : List ℕ)
      → InStep st routes
      → After routes (advertised p st now l msg)
  unfolding advertised
  advertised-InStep st routes now l msg v = elim (Option-cases (parse_advertisement msg)) [
    | inl e ↦ rw (e, advertised) (unchanged st routes v)
    | inr (target, e) ↦ rw (e, advertised) (confirmed-InStep st routes now l target v)
  ]

  from_lan-InStep :
      (st : State) (routes : HostRoutes) (now sock : ℕ) (b : List ℕ) (ls : List Lan)
      → InStep st routes
      → After routes (from_lan p st now sock b ls)
  unfolding from_lan
  from_lan-InStep st routes now sock b [] v = unchanged st routes v
  from_lan-InStep st routes now sock b (l ∷ ls) v = elim (Bool-cases (sock == l.sock)) [
    | inl e ↦ rw e (armed-InStep routes l.sock _ (advertised-InStep st routes now l b v))
    | inr e ↦ rw e (from_lan-InStep st routes now sock b ls v)
  ]

  handle_info-InStep :
      (st : State) (routes : HostRoutes) (now : ℕ) (m : Message)
      → InStep st routes
      → After routes (handle_info p st now m)
  unfolding handle_info
  handle_info-InStep st routes now (received sock b) v = elim (Bool-cases (sock == p.wan_rx)) [
    | inl e ↦ rw e (armed-InStep routes p.wan_rx _ (solicited-InStep st routes now b v))
    | inr e ↦ rw e (from_lan-InStep st routes now sock b p.lans v)
  ]
  handle_info-InStep st routes now swept v = swept-InStep st routes now v
  handle_info-InStep st routes now send_failed v = unchanged st routes v
  handle_info-InStep st routes now other v = unchanged st routes v
  handle_info-InStep st routes now m v = unfold handle_casts handle_cast in v

  -- The proxy and the routes process, over messages that come at their instants.
  pub run : State → HostRoutes → List (ℕ × Message) → State × HostRoutes
  run st routes [] = (st, routes)
  run st routes ((now, m) ∷ ms) =
      let (st', effs) = handle_info p st now m in run st' (handle_casts routes effs) ms

  -- From a state in which the host routes are the interfaces of the confirmed targets, as at the start,
  -- they are so after any messages: each installation and removal that the proxy casts, carried out in
  -- order and without failure, keeps the routes what the proxy has confirmed and not let expire.
  pub run-InStep :
      (st : State) (routes : HostRoutes) (ms : List (ℕ × Message))
      → InStep st routes
      → InStep (run st routes ms).0 (run st routes ms).1
  unfolding run
  run-InStep st routes [] v = v
  run-InStep st routes ((now, m) ∷ ms) v =
      run-InStep (handle_info p st now m).0 (handle_casts routes (handle_info p st now m).1) ms
        (handle_info-InStep st routes now m v)
