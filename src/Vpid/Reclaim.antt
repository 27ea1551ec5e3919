-- ===== src/Vpid/Reclaim.antt =====
-- `ReclaimVpid` of src/vmx/vpid_model.cpp: where a shootdown returns an identifier.
use knhv.Prelude.{ℕ, Bool, true, false, ◌&&◌, Option, none, some}
use knhv.Prelude.Tests.{◌==◌, ◌!=◌, if◌then◌else◌}
use knhv.Vpid.Defs.{lease_retiring, VpidLease, ShootdownState}
use knhv.Vpid.Lease.{free_lease, is_vpid_lease_valid}
use knhv.Vpid.Shootdown.{is_shootdown_state_valid, shootdown_covers_vpid}

unfoldable pub reclaim_vpid : Option VpidLease → ℕ → Option ShootdownState → Bool × Option VpidLease
reclaim_vpid none generation shootdown = (false, none)
reclaim_vpid (some l) generation none = (false, some l)
reclaim_vpid (some l) generation (some s) =
    if is_vpid_lease_valid (some l)
      && generation != 0
      && l.state == lease_retiring
      && l.generation == generation
      && is_shootdown_state_valid (some s)
      && s.generation == generation
      && s.acknowledged_cpu_mask == s.target_cpu_mask
      && shootdown_covers_vpid s l.vpid
    then (true, some free_lease)
    else (false, some l)
