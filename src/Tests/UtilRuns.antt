-- ===== src/Tests/UtilRuns.antt =====
-- Runs of the helpers of util/util.go.
use passive_bitcoin.Prelude.{◌⊎◌, none, [], ◌∷◌, ◌≡◌, true, false, In, ◌↔◌}
use passive_bitcoin.Util.{Interface, ip_net, other_addr, find_local_ips}
use passive_bitcoin.Util.LocalIps.{Served, find_local_ips_iff}
use passive_bitcoin.Tests.{local_ip}

-- One interface that is up, with a usable address, a loopback address and one of an unknown type.
abbrev eth0 : Interface
eth0 = record {
  up = true;
  loopback = false;
  addrs = ip_net (127 ∷ 0 ∷ 0 ∷ 1 ∷ []) ∷ ip_net local_ip ∷ other_addr ∷ [];
  addrs_err = none;
}

find_local_ips_iff_example :
    (In local_ip (find_local_ips (eth0 ∷ []) none).ips ↔ Served local_ip (eth0 ∷ []))
    × (((find_local_ips (eth0 ∷ []) none).err ≡ none)
        ⊎ ((find_local_ips (eth0 ∷ []) none).ips ≡ []))
find_local_ips_iff_example = find_local_ips_iff (eth0 ∷ []) local_ip
