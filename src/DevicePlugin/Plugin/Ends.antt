-- ===== src/DevicePlugin/Plugin/Ends.antt =====
-- An allocation ends with a result or an error if the calls of `Ensure` do.
use k8slan.Base.{ℕ, List, [], ◌∷◌}
use k8slan.Base.Text.{Text}
use k8slan.Base.Io.{Io}
use k8slan.Base.Returns.{Returns, returns_bind, returns_pure}
use k8slan.DevicePlugin.Plugin.{MacvtapDevicePlugin, device_of, Ensure, allocate_devices, allocate}

module _ {S : Type 0} (ensure : Ensure S) (mdp : MacvtapDevicePlugin) where
  abbrev ensured : Text → Io S ℕ
  ensured id = ensure id mdp.name mdp.lan mdp.host_name mdp.mode mdp.dummy_macvtap

  module _ (ends : (id : Text) → Returns (ensured id)) where
    allocate_devices_returns : (ids : List Text) → Returns (allocate_devices ensure mdp ids)
    unfolding allocate_devices
    allocate_devices_returns [] = returns_pure []
    allocate_devices_returns (id ∷ ids) = returns_bind (ensured id) _ (ends id) λ index.
        returns_bind (allocate_devices ensure mdp ids) _ (allocate_devices_returns ids)
          (λ devices. returns_pure (device_of index ∷ devices))

    pub allocate_returns : (requests : List (List Text)) → Returns (allocate ensure mdp requests)
    unfolding allocate
    allocate_returns [] = returns_pure []
    allocate_returns (ids ∷ rest) =
        returns_bind (allocate_devices ensure mdp ids) _ (allocate_devices_returns ids) λ devices.
          returns_bind (allocate ensure mdp rest) _ (allocate_returns rest)
            (λ responses. returns_pure (devices ∷ responses))
