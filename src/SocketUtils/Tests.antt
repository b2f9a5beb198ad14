-- ===== src/SocketUtils/Tests.antt =====
-- Runs of the choice of addresses.
use video_server.Base.{◌≡◌, refl, true, false, List, [], ◌∷◌, some, replicate}
use video_server.SocketUtils.{
  Address, inet, inet6, Interface, is_bad, is_bad_ipv4, is_bad_ipv6, all_zero, get_ip_addr,
}
use video_server.SocketUtils.Choice.{get_ip_addr_finds}

abbrev card : Address → Interface
card a = record { is_up = true; is_loopback = false; address = some a }

-- A link-local address is refused only if its second byte is 128 or more.
is_bad_link_local :
    (is_bad (inet6 (0xFE ∷ 0x80 ∷ replicate 14 0)) ≡ true)
    × (is_bad (inet6 (0xFE ∷ 0x7F ∷ replicate 14 0)) ≡ false)
    × (is_bad (inet 0x7F000001) ≡ true)
unfolding is_bad is_bad_ipv4 is_bad_ipv6
is_bad_link_local = (refl, refl, refl)

abbrev cards : List Interface
cards =
    record { is_up = true; is_loopback = true; address = some (inet 0x7F000001) }
    ∷ card (inet 0x0A000007)
    ∷ card (inet6 (0x20 ∷ replicate 15 1))
    ∷ card (inet 0x0A000008)
    ∷ card (inet6 (0x20 ∷ replicate 15 2))
    ∷ []

get_ip_addr_finds_example :
    ((get_ip_addr (some cards)).ipv4 ≡ inet 0x0A000007)
    × ((get_ip_addr (some cards)).ipv6 ≡ inet6 (0x20 ∷ replicate 15 2))
    × ((get_ip_addr (some cards)).works ≡ true)
unfolding is_bad is_bad_ipv4 is_bad_ipv6 all_zero
get_ip_addr_finds_example = get_ip_addr_finds cards
