-- ===== src/SocketUtils/Choice.antt =====
-- Which addresses `GetIpAddr` finds: the first of the IPv4 ones, and the last of the IPv6 ones.
use video_server.Base.{
  ℕ, ◌≡◌, refl, ◌∙◌, ◌⊎◌, inl, inr, Bool, true, false, not, ◌&&◌, ◌||◌, List, [], ◌∷◌, ◌++◌, Option,
  none, some, arith, if◌then◌else◌, Bool-cases, Option-cases,
}
use video_server.SocketUtils.{
  Address, inet, inet6, other_family, is_bad_ipv4, is_bad, null_ipv4, null_ipv6, null_loop,
  address_is_null, copy_address, Interface, Found, place, consider, consider_all, get_ip_addr,
}

-- What an interface that is up and no loopback offers.
abbrev pub offers : Interface → Option Address
offers i = if i.is_up && not i.is_loopback then i.address else none

-- The good addresses of each family, in the order of the interfaces.
abbrev pub good_ipv4 : Option Address → List Address
good_ipv4 none = []
good_ipv4 (some (inet n)) = if is_bad (inet n) then [] else inet n ∷ []
good_ipv4 (some (inet6 bytes)) = []
good_ipv4 (some other_family) = []

abbrev pub good_ipv6 : Option Address → List Address
good_ipv6 none = []
good_ipv6 (some (inet n)) = []
good_ipv6 (some (inet6 bytes)) = if is_bad (inet6 bytes) then [] else inet6 bytes ∷ []
good_ipv6 (some other_family) = []

abbrev pub gather : (Option Address → List Address) → List Interface → List Address
gather good [] = []
gather good (i ∷ rest) = good (offers i) ++ gather good rest

abbrev pub first_or : Address → List Address → Address
first_or d [] = d
first_or d (a ∷ rest) = a

abbrev pub last_or : Address → List Address → Address
last_or d [] = d
last_or d (a ∷ rest) = last_or a rest

abbrev pub has_any : List Address → Bool
has_any [] = false
has_any (a ∷ rest) = true

null_loop-true : (bytes : List ℕ) → null_loop bytes ≡ true
unfolding null_loop
null_loop-true [] = refl
null_loop-true (b ∷ bytes) = ground (arith, null_loop-true bytes)

-- The body of the loop, on what an interface offers.
abbrev on_offer : Option Address → Found → Found
on_offer none f = f
on_offer (some a) f = if is_bad a then f else place a f

consider-eq-on_offer : (i : Interface) (f : Found) → consider i f ≡ on_offer (offers i) f
unfolding consider
consider-eq-on_offer i f = elim (Option-cases i.address) [
  | inl e ↦ rw (e, consider) (ground (arith, e))
  | inr (a, e) ↦ rw (e, consider) (ground (arith, e))
]

-- The IPv4 address stays once it is there.
kept_ipv4 :
    (o : Option Address) (f : Found)
    → (on_offer o f).ipv4
      ≡ (if address_is_null f.ipv4 then first_or f.ipv4 (good_ipv4 o) else f.ipv4)
unfolding place copy_address is_bad
kept_ipv4 none f = ground arith
kept_ipv4 (some (inet n)) f = ground arith
kept_ipv4 (some (inet6 bytes)) f = ground arith
kept_ipv4 (some other_family) f = ground arith

good_ipv4_null :
    (o : Option Address) (d : Address)
    → address_is_null (first_or d (good_ipv4 o))
      ≡ (elim (good_ipv4 o) [ [] ↦ address_is_null d | a ∷ rest ↦ false ])
unfolding address_is_null is_bad is_bad_ipv4
good_ipv4_null none d = refl
good_ipv4_null (some (inet n)) d = ground arith
good_ipv4_null (some (inet6 bytes)) d = refl
good_ipv4_null (some other_family) d = refl

-- The IPv6 address is replaced each time, since every one counts as null.
kept_ipv6 :
    (o : Option Address) (f : Found)
    → address_is_null f.ipv6 ≡ true
    → ((on_offer o f).ipv6 ≡ last_or f.ipv6 (good_ipv6 o))
      × (address_is_null (on_offer o f).ipv6 ≡ true)
unfolding place copy_address address_is_null is_bad
kept_ipv6 none f h = (refl, h)
kept_ipv6 (some (inet n)) f h = (ground arith, ground (arith, h))
kept_ipv6 (some (inet6 bytes)) f h = ground (arith, h, null_loop-true bytes)
kept_ipv6 (some other_family) f h = (refl, h)

kept_works :
    (o : Option Address) (f : Found)
    → (on_offer o f).works ≡ (f.works || (address_is_null f.ipv4 && has_any (good_ipv4 o)))
unfolding place is_bad
kept_works none f = ground arith
kept_works (some (inet n)) f = ground arith
kept_works (some (inet6 bytes)) f = ground arith
kept_works (some other_family) f = ground arith

good_ipv4_cases :
    (o : Option Address) → (good_ipv4 o ≡ []) ⊎ ((a : Address) × (good_ipv4 o ≡ a ∷ []))
good_ipv4_cases none = inl refl
good_ipv4_cases (some (inet n)) = elim (Bool-cases (is_bad (inet n))) [
  | inl e ↦ inl (rw e refl)
  | inr e ↦ inr (inet n, rw e refl)
]
good_ipv4_cases (some (inet6 bytes)) = inl refl
good_ipv4_cases (some other_family) = inl refl

good_ipv6_cases :
    (o : Option Address) → (good_ipv6 o ≡ []) ⊎ ((a : Address) × (good_ipv6 o ≡ a ∷ []))
good_ipv6_cases none = inl refl
good_ipv6_cases (some (inet n)) = inl refl
good_ipv6_cases (some (inet6 bytes)) = elim (Bool-cases (is_bad (inet6 bytes))) [
  | inl e ↦ inl (rw e refl)
  | inr e ↦ inr (inet6 bytes, rw e refl)
]
good_ipv6_cases (some other_family) = inl refl

consider_all_ipv4 :
    (interfaces : List Interface) (f : Found)
    → ((consider_all interfaces f).ipv4 ≡ (
        if address_is_null f.ipv4 then first_or f.ipv4 (gather good_ipv4 interfaces) else f.ipv4))
      × ((consider_all interfaces f).works
          ≡ (f.works || (address_is_null f.ipv4 && has_any (gather good_ipv4 interfaces))))
unfolding consider_all
consider_all_ipv4 [] f = (ground arith, ground arith)
consider_all_ipv4 (i ∷ rest) f =
    let o = offers i in
    let step = consider-eq-on_offer i f in
    let later = consider_all_ipv4 rest (on_offer o f) in
    let here = kept_ipv4 o f in
    let works = kept_works o f in
    let null = good_ipv4_null o f.ipv4 in
    rw (step, consider_all)
      (elim (good_ipv4_cases o) [
        | inl e ↦ rw (e) (ground (arith, later, here, works, null, e))
        | inr (a, e) ↦ rw (e) (ground (arith, later, here, works, null, e))
      ])

consider_all_ipv6 :
    (interfaces : List Interface) (f : Found)
    → address_is_null f.ipv6 ≡ true
    → (consider_all interfaces f).ipv6 ≡ last_or f.ipv6 (gather good_ipv6 interfaces)
unfolding consider_all
consider_all_ipv6 [] f h = refl
consider_all_ipv6 (i ∷ rest) f h =
    let o = offers i in
    let (here, null) = kept_ipv6 o f h in
    let later = consider_all_ipv6 rest (on_offer o f) null in
    rw (consider-eq-on_offer i f, consider_all)
      (later
        ∙ elim (good_ipv6_cases o) [ inl e ↦ rw (here, e) refl | inr (a, e) ↦ rw (here, e) refl ])

-- `GetIpAddr` finds, among the addresses that are not bad of the interfaces that are up and no loopback,
-- the first of IPv4 and the last of IPv6, where a comment says the first of both; it has worked if there
-- is one of IPv4. Without interfaces both addresses are null.
pub get_ip_addr_finds :
    (interfaces : List Interface)
    → ((get_ip_addr (some interfaces)).ipv4 ≡ first_or null_ipv4 (gather good_ipv4 interfaces))
      × ((get_ip_addr (some interfaces)).ipv6 ≡ last_or null_ipv6 (gather good_ipv6 interfaces))
      × ((get_ip_addr (some interfaces)).works ≡ has_any (gather good_ipv4 interfaces))
unfolding get_ip_addr address_is_null
get_ip_addr_finds interfaces =
    let start : Found = record { ipv4 = null_ipv4; ipv6 = null_ipv6; works = false } in
    let (ipv4, works) = consider_all_ipv4 interfaces start in
    (ipv4, consider_all_ipv6 interfaces start (null_loop-true _), works)
