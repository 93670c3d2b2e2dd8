-- ===== src/PrefixDelegation.antt =====
-- pkg/prefixdelegation: DHCPv6 prefix delegation. Durations are natural numbers of nanoseconds.
pub mod Timers
pub mod Bounds
pub mod Options
pub mod Lease
pub mod Exchanges
mod Examples
use minuteman.Base.{ℕ, ◌*◌, ◌-◌, ◌^◌, Option, List}
use minuteman.Netip.{Prefix}

pub record StatusCode : Type 0 where
  pub code : ℕ
  pub message : List ℕ

pub record IaPrefix : Type 0 where
  pub preferred_lifetime : ℕ
  pub valid_lifetime : ℕ
  pub prefix : Prefix

pub record Iapd : Type 0 where
  pub iaid : List ℕ
  pub t1 : ℕ
  pub t2 : ℕ
  pub prefixes : List IaPrefix
  pub status_code : Option StatusCode

abbrev pub second : ℕ
second = 1_000_000_000

-- 0xffffffff seconds stand for infinity.
abbrev pub infinite_lifetime : ℕ
infinite_lifetime = 0xffff_ffff * second
