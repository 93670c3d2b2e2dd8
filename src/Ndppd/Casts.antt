-- ===== src/Ndppd/Casts.antt =====
-- internal/ndppd: what the casts of the proxy make of the host routes.
use minuteman.Base.{
  ℕ, ◌≡◌, refl, sym, ap, ◌∙◌, subst, arith, List, [], ◌∷◌, ◌++◌, Bool, true, false, Bool-cases, inl,
  inr, Option, Option-cases, none, some, if◌then◌else◌,
}
use minuteman.Netip.{Addr, addr_key, same_addr}
use minuteman.NdProxy.{Reply, Expired}
use minuteman.NdProxy.Entries.{left_by, left_by-none, left_by-other, same_addr_self, same_addr-eq}
use minuteman.Ndppd.{
  Lan, Proxy, Effect, remove, advertise, advertise_all, probe_from, probe, probe_each, remove_each,
  HostRoutes, drop_route, handle_cast, handle_casts,
}

pub handle_casts-append :
    (routes : HostRoutes) (xs ys : List Effect)
    → handle_casts routes (xs ++ ys) ≡ handle_casts (handle_casts routes xs) ys
unfolding handle_casts
handle_casts-append routes [] ys = refl
handle_casts-append routes (x ∷ xs) ys = handle_casts-append (handle_cast routes x) xs ys

removed_at :
    (routes : HostRoutes) (e : Expired)
    → handle_cast routes (remove e.target e.iface) e.target
      ≡ left_by (e ∷ []) e.target (routes e.target)
unfolding handle_cast drop_route left_by
removed_at routes e = elim (Option-cases (routes e.target)) [
  | inl h ↦ rw (h, drop_route, left_by) h
  | inr (i, h) ↦ rw (h, drop_route, left_by) (ground (arith, h, same_addr_self e.target))
]

removed_off :
    (routes : HostRoutes) (e : Expired) (t : Addr)
    → same_addr e.target t ≡ false
    → handle_cast routes (remove e.target e.iface) t ≡ routes t
unfolding handle_cast drop_route
removed_off routes e t f = elim (Option-cases (routes e.target)) [
  | inl h ↦ rw (h, drop_route) refl
  | inr (i, h) ↦ rw (h, drop_route) (ground arith)
]

handle_cast-remove :
    (routes : HostRoutes) (e : Expired) (t : Addr)
    → handle_cast routes (remove e.target e.iface) t ≡ left_by (e ∷ []) t (routes t)
handle_cast-remove routes e t = elim (Bool-cases (same_addr e.target t)) [
  | inl f ↦
      subst (λ u. handle_cast routes (remove e.target e.iface) u ≡ left_by (e ∷ []) u (routes u))
        (same_addr-eq e.target t f) (removed_at routes e)
  | inr f ↦
      removed_off routes e t f ∙ sym (left_by-other e [] t (routes t) f ∙ (unfold left_by in refl))
]

left_by-cons :
    (e : Expired) (es : List Expired) (t : Addr) (r : Option (List ℕ))
    → left_by es t (left_by (e ∷ []) t r) ≡ left_by (e ∷ es) t r
unfolding left_by
left_by-cons e es t none = left_by-none es t
left_by-cons e es t (some i) = refl

module _ (p : Proxy) where
  handle_casts-probe :
      (routes : HostRoutes) (ls : List Lan) (target : Addr)
      → handle_casts routes (probe_from p ls target) ≡ routes
  unfolding handle_casts probe_from handle_cast
  handle_casts-probe routes [] target = refl
  handle_casts-probe routes (l ∷ ls) target = handle_casts-probe routes ls target

  pub handle_casts-probe_each :
      (routes : HostRoutes) (ts : List Addr) → handle_casts routes (probe_each p ts) ≡ routes
  unfolding probe_each probe
  handle_casts-probe_each routes [] = unfold handle_casts in refl
  handle_casts-probe_each routes (t ∷ ts) =
      handle_casts-append routes (probe_from p p.lans t) (probe_each p ts)
      ∙ ap (λ (r : HostRoutes). handle_casts r (probe_each p ts))
          (handle_casts-probe routes p.lans t)
      ∙ handle_casts-probe_each routes ts

  pub handle_casts-remove_each :
      (routes : HostRoutes) (es : List Expired) (t : Addr)
      → handle_casts routes (remove_each p es) t ≡ left_by es t (routes t)
  unfolding handle_casts remove_each
  handle_casts-remove_each routes [] t = unfold left_by in refl
  handle_casts-remove_each routes (e ∷ es) t =
      handle_casts-remove_each (handle_cast routes (remove e.target e.iface)) es t
      ∙ ap (left_by es t) (handle_cast-remove routes e t)
      ∙ left_by-cons e es t (routes t)

  pub handle_casts-advertise_all :
      (routes : HostRoutes) (r : Option Reply) → handle_casts routes (advertise_all p r) ≡ routes
  unfolding advertise_all handle_casts handle_cast advertise
  handle_casts-advertise_all routes none = refl
  handle_casts-advertise_all routes (some r) = refl

  pub handle_casts-if :
      (routes : HostRoutes) (probing : Bool) (target : Addr)
      → handle_casts routes (if probing then probe p target else []) ≡ routes
  unfolding probe
  handle_casts-if routes true target = handle_casts-probe routes p.lans target
  handle_casts-if routes false target = unfold handle_casts in refl
