-- ===== src/PrefixDelegation/Timers.antt =====
-- pkg/prefixdelegation/timers.go: the renewal timers of a lease.
use minuteman.Base.{ℕ, ◌+◌, ◌*◌, ◌/◌, List, [], ◌∷◌, not, ◌&&◌, ◌||◌, ltb, leb, ◌==◌, if◌then◌else◌}
use minuteman.PrefixDelegation.{IaPrefix, Iapd, second, infinite_lifetime}

abbrev pub min_derived_t1 : ℕ
min_derived_t1 = 60 * second

-- Whichever comes first, a zero being no deadline.
unfoldable pub earlier : ℕ → ℕ → ℕ
earlier a b = if a == 0 || (ltb 0 b && ltb b a) then b else a

unfoldable pub recommended_timers : ℕ → ℕ × ℕ
recommended_timers preferred =
    if preferred == infinite_lifetime
    then (infinite_lifetime, infinite_lifetime)
    else (preferred / 2, preferred / 5 * 4)

unfoldable pub shortest_preferred_from : ℕ → List IaPrefix → ℕ
shortest_preferred_from shortest [] = shortest
shortest_preferred_from shortest (p ∷ ps) =
    shortest_preferred_from
      (if ltb p.preferred_lifetime shortest then p.preferred_lifetime else shortest) ps

unfoldable pub shortest_preferred_lifetime : List IaPrefix → ℕ
unfolding shortest_preferred_from
shortest_preferred_lifetime [] = 0
shortest_preferred_lifetime (p ∷ ps) = shortest_preferred_from p.preferred_lifetime ps

unfoldable pub shortest_valid_from : ℕ → List IaPrefix → ℕ
shortest_valid_from shortest [] = shortest
shortest_valid_from shortest (p ∷ ps) =
    shortest_valid_from (if ltb p.valid_lifetime shortest then p.valid_lifetime else shortest) ps

unfoldable pub shortest_valid_lifetime : List IaPrefix → ℕ
unfolding shortest_valid_from
shortest_valid_lifetime [] = 0
shortest_valid_lifetime (p ∷ ps) = shortest_valid_from p.valid_lifetime ps

-- T1 where the server left it open, against its T2 and the lease's own end.
unfoldable pub derived_t1 : ℕ → ℕ → ℕ → ℕ
unfolding earlier
derived_t1 recommended t2 valid =
    let t1 = if ltb recommended min_derived_t1 then min_derived_t1 else recommended in
    let limit = earlier t2 valid in
    if (ltb 0 limit && not (limit == infinite_lifetime)) && leb limit t1 then limit / 2 else t1

-- T2 where the server left it open, against T1 and the lease's own end.
unfoldable pub derived_t2 : ℕ → ℕ → ℕ → ℕ
derived_t2 recommended t1 valid =
    let t2 =
      if t1 == infinite_lifetime
      then infinite_lifetime
      else if ltb t1 recommended
      then recommended
      else t1 + t1 / 2 in
    if ltb t1 valid && ltb valid t2 then valid else t2

-- The timers on the two shortest lifetimes.
unfoldable pub timers_of : ℕ → ℕ → ℕ → ℕ → ℕ × ℕ
unfolding derived_t1 derived_t2 recommended_timers
timers_of t1 t2 preferred valid =
    let (rec_t1, rec_t2) = recommended_timers preferred in
    let first = if t1 == 0 then derived_t1 rec_t1 t2 valid else t1 in
    let later = if t2 == 0 then derived_t2 rec_t2 first valid else t2 in
    if ltb 0 t1 && ltb 0 t2 then (t1, t2) else (first, later)

unfoldable pub effective_timers : Iapd → ℕ × ℕ
effective_timers iapd =
    timers_of iapd.t1 iapd.t2 (shortest_preferred_lifetime iapd.prefixes)
      (shortest_valid_lifetime iapd.prefixes)
