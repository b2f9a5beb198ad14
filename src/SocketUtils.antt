-- ===== src/SocketUtils.antt =====
-- code/utils/groupsocketutils.cpp, and `GetIpAddr` of code/server/webserver.cpp, which is built on it.
-- An IPv4 address is the number that `htonl` makes of its four bytes; an IPv6 one is its 16 bytes.
pub mod Choice
mod Tests
use Prim.Native.Nat.{bit_and}
use video_server.Base.{
  ℕ, Bool, true, false, not, ◌&&◌, ◌||◌, List, [], ◌∷◌, Option, none, some, take, get_or, replicate,
  ◌==◌, if◌then◌else◌,
}

-- A `sockaddr` by its family.
pub data Address : Type 0 where
  inet : ℕ → Address
  inet6 : List ℕ → Address
  other_family : Address

-- `isBadIPv4AddressForUs`
pub is_bad_ipv4 : ℕ → Bool
is_bad_ipv4 n = n == 0x7F000001 || n == 0 || n == 0xFFFFFFFF

-- Whether a loop over these bytes meets none but 0.
pub all_zero : List ℕ → Bool
all_zero [] = true
all_zero (b ∷ bs) = if b == 0 then all_zero bs else false

-- `isBadIPv6AddressForUs`
pub is_bad_ipv6 : List ℕ → Bool
is_bad_ipv6 bytes =
    let last = get_or bytes 15 0 in
    if get_or bytes 0 0 == 0xFE
    then not (bit_and (get_or bytes 1 0) 0x80 == 0)
    else if all_zero (take 15 bytes)
    then last == 0 || last == 1
    else false

-- `isBadAddressForUs`
pub is_bad : Address → Bool
is_bad (inet n) = is_bad_ipv4 n
is_bad (inet6 bytes) = is_bad_ipv6 bytes
is_bad other_family = true

-- `nullAddress`, for `AF_INET` and for all else.
abbrev pub null_ipv4 : Address
null_ipv4 = inet 0

abbrev pub null_ipv6 : Address
null_ipv6 = inet6 (replicate 16 0)

-- The loop of `addressIsNull` over the bytes, which returns true from within and at its end.
pub null_loop : List ℕ → Bool
null_loop [] = true
null_loop (b ∷ bs) = if b == 0 then null_loop bs else true

-- `addressIsNull`
pub address_is_null : Address → Bool
address_is_null (inet n) = n == 0
address_is_null (inet6 bytes) = null_loop bytes
address_is_null other_family = true

-- `copyAddress`: the target after the call.
pub copy_address : Address → Address → Address
copy_address to (inet n) = inet n
copy_address to (inet6 bytes) = inet6 bytes
copy_address to other_family = to

-- An `ifaddrs`: the flags `IFF_UP` and `IFF_LOOPBACK`, and the address if there is one.
pub record Interface : Type 0 where
  pub is_up : Bool
  pub is_loopback : Bool
  pub address : Option Address

-- The variables of `GetIpAddr`.
pub record Found : Type 0 where
  pub ipv4 : Address
  pub ipv6 : Address
  pub works : Bool

-- What is done with an address that is not bad.
pub place : Address → Found → Found
place (inet n) f =
    if address_is_null f.ipv4
    then record f { ipv4 = copy_address f.ipv4 (inet n); works = true }
    else f
place (inet6 bytes) f =
    if address_is_null f.ipv6 then record f { ipv6 = copy_address f.ipv6 (inet6 bytes) } else f
place other_family f = f

-- The body of the loop over the interfaces.
pub consider : Interface → Found → Found
consider i f = elim i.address [
  | none ↦ f
  | some a ↦ if not i.is_up || i.is_loopback then f else if is_bad a then f else place a f
]

pub consider_all : List Interface → Found → Found
consider_all [] f = f
consider_all (i ∷ rest) f = consider_all rest (consider i f)

-- `GetIpAddr`, with what `getifaddrs` returns, if it does.
pub get_ip_addr : Option (List Interface) → Found
get_ip_addr none = record { ipv4 = null_ipv4; ipv6 = null_ipv6; works = false }
get_ip_addr (some interfaces) =
    consider_all interfaces (record { ipv4 = null_ipv4; ipv6 = null_ipv6; works = false })
