-- ===== src/Nettools.antt =====
-- sals/nettools/__init__.py: waiting for a port, pings, the types of interfaces, and downloads.
pub mod Waiting
use js_ng.Prelude.{
  ℕ, zero, suc, ◌+◌, ◌-◌, Bool, true, false, not, ◌&&◌, ◌||◌, Option, none, some, List, [], ◌∷◌,
  ◌++◌, ◌==◌, str_eq, nat_eq, contains, starts, eqb, ltb, if◌then◌else◌, Str, str, length, drop,
}
use js_ng.Prelude.Result.{Result, ok, err, guard, value_error, runtime_error, ◌>>=◌, ◌>>◌}
use js_ng.Text.{strip}
use js_ng.Fs.{Disk}

-- IPAddress.check of jumpscale.data.types, where `ipv4_address` is ipaddress.IPv4Address and gives
-- `none` where that raises AddressValueError
unfoldable pub check_ip_address : {Address : Type 0} → (Str → Option Address) → Str → Bool
check_ip_address ipv4_address value = elim (ipv4_address value) [ none ↦ false | some a ↦ true ]

-- What a turn of a loop finds: the time, and whether the machine answers
module _ (now : ℕ → ℕ) (answers : ℕ → Bool) where
  -- The loop of wait_connection_test, from the given turn on, on fuel
  unfoldable pub connection_loop : ℕ → ℕ → ℕ → Option Bool
  connection_loop zero end k = none
  connection_loop (suc fuel) end k =
      let rest = connection_loop fuel end (suc k) in
      if ltb end (now k) then some false else if answers k then some true else rest

  -- wait_connection_test, of which the end is reckoned at the time `start`
  unfoldable pub wait_connection_test : ℕ → ℕ → ℕ → Option Bool
  unfolding connection_loop
  wait_connection_test fuel start timeout = connection_loop fuel (start + timeout) 0

  -- The loop of ping_machine; what it takes from the time stands on the other side of its test.
  unfoldable pub ping_loop : ℕ → ℕ → ℕ → ℕ → Option Bool
  ping_loop zero start timeout k = none
  ping_loop (suc fuel) start timeout k =
      let rest = ping_loop fuel start timeout (suc k) in
      if ltb (now k) (start + timeout) then (if answers k then some true else rest) else some false

  -- ping_machine
  unfoldable pub ping_machine :
      {Address : Type 0} → (Str → Option Address) → ℕ → ℕ → Str → ℕ → Bool → Option (Result Bool)
  unfolding ping_loop check_ip_address
  ping_machine ipv4_address fuel start ip timeout allowhostname =
      if not allowhostname && not (check_ip_address ipv4_address ip)
      then some (err value_error)
      else (elim (ping_loop fuel start timeout 0) [ none ↦ none | some b ↦ some (ok b) ])

-- An interface as get_network_info gives it
pub record Nic : Type 0 where
  pub name : Str
  pub mac : Str
  pub ip : List Str
  pub cidr : ℕ

-- get_nic_names
unfoldable pub get_nic_names : List Nic → List Str
get_nic_names [] = []
get_nic_names (nic ∷ nics) = nic.name ∷ get_nic_names nics

-- get_network_info of a device, over the interfaces that are found
unfoldable pub get_device : Str → List Nic → Result Nic
get_device device [] = err runtime_error
get_device device (nic ∷ nics) =
    let rest = get_device device nics in if nic.name == device then ok nic else rest

-- get_mac_address
unfoldable pub get_mac_address : Str → List Nic → Result Str
unfolding get_device
get_mac_address interface nics = do nic ← get_device interface nics; ok nic.mac

-- get_default_ip_config, over the address that get_reachable_ip_address finds
unfoldable pub get_default_ip_config : Str → List Nic → Option (Str × Str)
unfolding contains
get_default_ip_config ipaddr [] = none
get_default_ip_config ipaddr (item ∷ items) =
    let rest = get_default_ip_config ipaddr items in
    if contains item.ip ipaddr then some (item.name, ipaddr) else rest

pub data NicType : Type 0 where
  infiniband vlan virtual ethernet_gb : NicType

-- The files that are asked for and read, what commands give, with their exit code, and the driver that
-- is found in the output of ethtool
module _ (exists : Str → Bool) (read_file : Str → Str) (run_local : Str → ℕ × Str)
    (driver : Str → Option Str) where
  -- The end of get_nic_type on Linux, by the driver
  unfoldable pub type_of_driver : Option Str → NicType
  type_of_driver none = ethernet_gb
  type_of_driver (some d) =
      if d == str "tun" then virtual else if d == str "bridge" then vlan else ethernet_gb

  -- get_nic_type, on Linux
  unfoldable pub get_nic_type : Str → Result NicType
  unfolding type_of_driver strip
  get_nic_type interface =
      let place = str "/sys/class/net/" ++ interface in
      let output = if exists place then read_file (place ++ str "/type") else [] in
      if strip output == str "32"
      then ok infiniband
      else if exists (str "/proc/net/vlan/" ++ interface)
      then ok vlan
      else if not (eqb (run_local (str "which ethtool")).0 0)
      then err runtime_error
      else if not (eqb (run_local (str "ethtool -i " ++ interface)).0 0)
      then ok virtual
      else ok (type_of_driver (driver (run_local (str "ethtool -i " ++ interface)).1))
