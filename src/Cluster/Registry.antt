-- ===== src/Cluster/Registry.antt =====
-- internal/cluster/registry.go and node.go: what the registrar and the observer share.
--
-- Times and durations are in nanoseconds. Each reading of the clock takes the time that `Clock` says
-- has passed since the last one, so that the clock never goes back; a registration's timestamp keeps
-- the time as it is. `A` is an address.
use veracity.Base.{ℕ, zero, suc, ◌+◌, ◌-◌, ◌*◌, List, [], ◌∷◌, ltb, if◌then◌else◌, ℤ, pos, negsuc}

pub record Node (U A : Type 0) : Type 0 where
  pub id : U
  pub addresses : List A

pub record Registration (U A : Type 0) : Type 0 where
  pub node : Node U A
  pub expires_at : ℕ

pub record Clock : Type 0 where
  pub now : ℕ
  pub passing : List ℕ

abbrev pub passed : ℕ → List ℕ → Clock
passed t [] = record { now = t; passing = [] }
passed t (d ∷ rest) = record { now = t + d; passing = rest }

-- `time.Now()`
unfoldable pub read_clock : Clock → Clock
read_clock c = passed c.now c.passing

abbrev pub default_renew_interval : ℕ
default_renew_interval = 10000000000

abbrev pub default_registry_poll_interval : ℕ
default_registry_poll_interval = 3000000000

-- The interval that is used: the default for one that is not positive.
unfoldable pub interval_or : ℕ → ℤ → ℕ
interval_or default (pos zero) = default
interval_or default (pos (suc n)) = suc n
interval_or default (negsuc n) = default

-- `interval * 2` of a positive `int64`, which wraps.
unfoldable pub double_duration : ℕ → ℤ
double_duration n =
    if ltb (n * 2) 9223372036854775808
    then pos (n * 2)
    else negsuc (18446744073709551616 - n * 2 - 1)

-- `Time.Add`
unfoldable pub add_duration : ℕ → ℤ → ℕ
add_duration t (pos d) = t + d
add_duration t (negsuc d) = t - (d + 1)
