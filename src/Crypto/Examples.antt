-- ===== src/Crypto/Examples.antt =====
-- Runs of crates/clipse-crypto, and its theorems at concrete inputs.
use clipse.Prelude.{◌≡◌, refl, [], ◌∷◌, arith}
use clipse.Prelude.Bytes.{ascii}
use clipse.Core.Id.{DeviceId}
use clipse.Crypto.Trust.{
  linux, lan_address, PairedDevice, Trust, ok, not_trusted, remove_peer, authorize_session,
}
use clipse.Crypto.Trust.Revocation.{pair, change_all, authorize_session-removed}

abbrev device : DeviceId → PairedDevice
device id = record {
  device_id = id;
  static_public = id;
  label = ascii "laptop";
  platform = linux;
  addresses = lan_address 10 ∷ [];
  paired_at_ms = 0;
}

abbrev trust : Trust
trust = record { local_device_id = 1; epoch = 4; peers = device 2 ∷ device 3 ∷ [] }

abbrev without : Trust
without = record { local_device_id = 1; epoch = 5; peers = device 3 ∷ [] }

without-ok : remove_peer 2 trust ≡ (without, ok (device 2))
unfolding remove_peer
without-ok = refl

-- The session with the device that stays is stale too, and so is that of the removed device, paired
-- again or not.
authorize_session-removed_example :
    authorize_session
      (record { epoch = 4; remote_device_id = 2 })
      (change_all (pair (device 2) ∷ []) without)
    ≡ not_trusted
authorize_session-removed_example =
    authorize_session-removed 2 trust without (device 2) (pair (device 2) ∷ [])
      (record { epoch = 4; remote_device_id = 2 }) without-ok (omega arith) (omega arith)

-- A session of the new epoch with a paired device is authorised.
fresh_session : authorize_session (record { epoch = 5; remote_device_id = 3 }) without ≡ ok tt
unfolding authorize_session
fresh_session = refl
