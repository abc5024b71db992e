-- ===== src/Tests/Syncing.antt =====
-- The theorems on `sync_conf` at two devices.
use special_potato.Prelude.{some, true, ◌≡◌, ◌≢◌, refl}
use special_potato.Encoding.{IsKey}
use special_potato.Containers.{WgDevice, zero_key}
use special_potato.Outcome.{ok}
use special_potato.Setconf.{sync_conf}
use special_potato.Setconf.Result.{runs_after, has_key, runs_after-sync_conf}
use special_potato.Tests.{demo, all_bytes_sound, key, running, wanted}

key-IsKey : IsKey key
key-IsKey = (refl, all_bytes_sound key refl)

zero_key-IsKey : IsKey zero_key
zero_key-IsKey = (refl, all_bytes_sound zero_key refl)

zero_key-ne : zero_key ≢ key
zero_key-ne e = cc

abbrev replacing : WgDevice
replacing = record wanted { flags = record (wanted.flags) { replace_peers = true } }

runs_after-sync_conf_example :
    (device : WgDevice) × (sync_conf demo (λ name. some running) replacing ≡ ok device)
    × (runs_after zero_key device running ≡ has_key zero_key replacing.peers)
runs_after-sync_conf_example =
    runs_after-sync_conf demo (λ name. some running) running replacing zero_key refl refl
      (key-IsKey, (zero_key-IsKey, tt)) ((zero_key-ne, tt), (tt, tt)) (key-IsKey, tt) (refl, tt)
