-- ===== src/Config/Validation.antt =====
-- What a checked device is.
use meshcore_bbs.Config.{DeviceConfig, validate_device}
use meshcore_bbs.Db.{ok}
use meshcore_bbs.Prelude.{arith, false, if◌then◌else◌, null, ◌≡◌, ◌≤◌, ◌⊎◌}
use meshcore_bbs.Text.{Unicode, lit, lower, strip}
use meshcore_bbs.Text.Laws.{str_eq_iff}

-- A device that passes has the connection "serial", or it has "tcp" with a host that is not blank
-- and a port from 1 to 65535.
pub validate_device_lem :
    (u : Unicode) (device checked : DeviceConfig)
    → validate_device u device ≡ ok checked
    → (checked.connection ≡ lit "serial")
      ⊎ ((checked.connection ≡ lit "tcp")
          × (null (strip checked.tcp_host) ≡ false)
          × (1 ≤ checked.tcp_port)
          × (checked.tcp_port ≤ 65535))
unfolding validate_device
validate_device_lem u device checked h =
    let conn =
      lower u (strip (if null device.connection then lit "serial" else device.connection)) in
    ground (arith, str_eq_iff conn (lit "serial"), str_eq_iff conn (lit "tcp"))
