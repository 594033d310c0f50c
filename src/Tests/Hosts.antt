-- ===== src/Tests/Hosts.antt =====
-- IPv4 hosts as browsers read them.
use hoocloak.Base.{◌≡◌, refl, ℕ, ◌≤◌, List, some}
use hoocloak.Config.Text.{codes, split}
use hoocloak.Config.Ipv4
use hoocloak.Config.Ipv4.{Quad, read_labels, parse_browser_ipv4_host}
use hoocloak.Config.Ipv4.Bounds.{place_value, radix, digits, parse_browser_ipv4_number-exact}
use hoocloak.Config.Ipv4.Quads.{quad_value, address, parse_browser_ipv4_host-address}

program : Unit {0}
unfolding split Ipv4.parse_browser_ipv4_number Ipv4.parse_browser_ipv4_host
program = tt

parse_browser_ipv4_number-exact_example :
    (127 ≤ 0xffffffff) × (127 ≡ place_value (radix (codes "0x7f")) (digits (codes "0x7f")) 0)
unfolding program
parse_browser_ipv4_number-exact_example = parse_browser_ipv4_number-exact (codes "0x7f") 127 refl

abbrev loopback : Quad
loopback = record { a = 127; b = 0; c = 0; d = 1 }

parse_browser_ipv4_host-address_example :
    (ns : List ℕ) × (read_labels (split b'.' (codes "127.1")) ≡ some ns)
    × (quad_value loopback ≡ address ns)
unfolding program
parse_browser_ipv4_host-address_example =
    parse_browser_ipv4_host-address (codes "127.1") loopback refl
