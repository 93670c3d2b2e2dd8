-- ===== src/Dhcpv4/Pool/Start.antt =====
-- pkg/dhcpv4/lease.go: `NewPool` and `lastAddr`.
use native.Mathlib.Nat.{mul-div_cancel, div-lt_iff_lt-mul}
use minuteman.Base.{ℕ, ◌+◌, ◌-◌, ◌*◌, ◌/◌, ◌^◌, ◌≤◌, ◌<◌, ◌∙◌, ◌≡◌, refl, sym, ap, arith}
use minuteman.Base.Maps.{empty}
use minuteman.Base.Bits.{pow-add, pow_pos, bit_or-mask}
use minuteman.Netip.{Addr, v4, v6, invalid, Prefix, IsAddr}
use minuteman.Dhcpv4.Pool.{Pool, new_pool, ok, last_addr}
use minuteman.Dhcpv4.Pool.Valid.{IsValid}

-- A prefix of `b` bits splits the 2 ^ 32 addresses into 2 ^ b blocks.
blocks : (b : ℕ) → b ≤ 32 → 2 ^ b * 2 ^ (32 - b) ≡ 2 ^ 32
blocks b h =
    sym (pow-add b (32 - b)) ∙ ap (λ t. 2 ^ t) (let e : b + (32 - b) ≡ 32 = omega arith in e)

block_fits :
    (n b : ℕ) → n < 2 ^ 32 → b ≤ 32 → n / 2 ^ (32 - b) * 2 ^ (32 - b) + 2 ^ (32 - b) ≤ 2 ^ 32
block_fits n b hn hb = omega (arith, blocks b hb, room)
  where
    within : n / 2 ^ (32 - b) < 2 ^ b
    within = (div-lt_iff_lt-mul (pow_pos (32 - b))).1 (omega (arith, blocks b hb))

    room : (n / 2 ^ (32 - b) + 1) * 2 ^ (32 - b) ≤ 2 ^ b * 2 ^ (32 - b)
    room = grind (arith, within)

four_or_more : (b : ℕ) → b ≤ 30 → 4 ≤ 2 ^ (32 - b)
four_or_more b h =
    let e : 32 - b ≡ 2 + (30 - b) = omega arith in
    rw (e, pow-add 2 (30 - b)) (omega (arith, pow_pos (30 - b)))

-- The last address of a prefix whose address starts a block.
last_addr-block :
    (k b : ℕ)
    → last_addr (record { addr = v4 (k * 2 ^ (32 - b)); bits = b })
      ≡ v4 (k * 2 ^ (32 - b) + (2 ^ (32 - b) - 1))
unfolding last_addr
last_addr-block k b =
    ap v4 (bit_or-mask (32 - b) (k * 2 ^ (32 - b)) ∙ rw (mul-div_cancel k (pow_pos (32 - b))))

-- The pool that `NewPool` makes of an IPv4 prefix.
abbrev fresh : ℕ → ℕ → Addr → ℕ → Pool
fresh n b server duration =
    let subnet : Prefix = record { addr = v4 (n / 2 ^ (32 - b) * 2 ^ (32 - b)); bits = b } in
    record {
      subnet = subnet;
      server_ip = server;
      network = subnet.addr;
      broadcast = last_addr subnet;
      duration = duration;
      by_client = empty;
      by_ip = empty;
      declined = empty;
    }

fresh-IsValid :
    (n b : ℕ) (server : Addr) (duration : ℕ)
    → n < 2 ^ 32
    → b ≤ 30
    → IsValid (fresh n b server duration)
fresh-IsValid n b server duration hn hb = record {
  serving = record {
    block = n / 2 ^ (32 - b);
    at = refl;
    first = refl;
    last = last_addr-block (n / 2 ^ (32 - b)) b;
    fits = block_fits n b hn (omega arith);
    room = four_or_more b hb;
  };
  paired = record { owned = λ c a h. cc; held = λ c a h. cc };
}

new_pool-fresh :
    (n b : ℕ) (server : Addr) (duration : ℕ) (p : Pool)
    → new_pool (record { addr = v4 n; bits = b }) server duration ≡ ok p
    → (b ≤ 30) × (p ≡ fresh n b server duration)
unfolding new_pool
new_pool-fresh n b server duration p e = ground arith

-- What `NewPool` returns, of a prefix whose address Go can hold, is well formed.
pub new_pool-IsValid :
    (subnet : Prefix) (server : Addr) (duration : ℕ) (p : Pool)
    → IsAddr subnet.addr
    → new_pool subnet server duration ≡ ok p
    → IsValid p
new_pool-IsValid subnet = parts subnet.addr subnet.bits
  where
    parts :
        (a : Addr) (b : ℕ) (server : Addr) (duration : ℕ) (p : Pool)
        → IsAddr a
        → new_pool (record { addr = a; bits = b }) server duration ≡ ok p
        → IsValid p
    parts invalid b server duration p fits e = unfold new_pool in cc
    parts (v6 n) b server duration p fits e = unfold new_pool in cc
    parts (v4 n) b server duration p fits e =
        let (low, same) = new_pool-fresh n b server duration p e in
        rw same (fresh-IsValid n b server duration fits low)
