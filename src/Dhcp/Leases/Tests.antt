-- ===== src/Dhcp/Leases/Tests.antt =====
-- Runs of the lease database on concrete tables, and the theorems at them.
use squawk.Prelude.{List, none, [], ◌∷◌, ◌⊎◌, some, none, ◌≡◌, codes, text_eq, refl}
use squawk.Dhcp.Samples.{home, shut, printer, shared_db}
use squawk.Dhcp.Address.{parse_ipv4, print_ipv4}
use squawk.Dhcp.Database.InMemory.{list_backend}
use squawk.Dhcp.Leases.Refinement.{
  Change, create, release, sweep, client_map, performed_all, specified_all,
}
use squawk.Dhcp.Leases.Refinement.Steps.{performed_all-specified_all}
use squawk.Dhcp.Samples.{home, printer, laptop, shared_db}
use squawk.Dhcp.Model.{returns}
use squawk.Dhcp.Leases.{find_free_ip, free_from, get_offer}
use squawk.Dhcp.Leases.Offers.{IsHeld, IsReserved, IsAvailable, get_offer-some}

parse_ipv4_cases :
    (parse_ipv4 (codes "192.168.1.100") ≡ some 3232235876)
    × (parse_ipv4 (codes "192.168.01.1") ≡ none)
    × (parse_ipv4 (codes "256.1.1.1") ≡ none)
    × (parse_ipv4 (codes "1.2.3") ≡ none)
unfolding parse_ipv4
parse_ipv4_cases = (refl, refl, refl, refl)

offers_first_free :
    get_offer list_backend home 50 1 printer none shared_db ≡ returns (some (codes "192.168.1.101"))
unfolding get_offer find_free_ip free_from parse_ipv4 print_ipv4 text_eq
offers_first_free = refl

nothing_left : get_offer list_backend shut 50 1 printer none shared_db ≡ returns none
unfolding get_offer find_free_ip free_from parse_ipv4 print_ipv4 text_eq
nothing_left = refl

get_offer-some_example :
    IsHeld list_backend home 1 shared_db 50 printer (codes "192.168.1.101")
    ⊎ (IsReserved list_backend home 1 shared_db 50 printer (codes "192.168.1.101")
        ⊎ IsAvailable list_backend home 1 shared_db (codes "192.168.1.101"))
get_offer-some_example =
    get_offer-some list_backend home 1 shared_db 50 printer none (codes "192.168.1.101")
      offers_first_free

-- The printer is given a lease, the laptop gives its own back, and a sweep follows.
abbrev history : List Change
history = create home 50 1 printer (codes "192.168.1.101") none ∷ release 1 laptop ∷ sweep 60 1 ∷ []

performed_all-specified_all_example :
    client_map list_backend (performed_all list_backend history shared_db) 1 printer
    ≡ specified_all history (client_map list_backend shared_db) 1 printer
performed_all-specified_all_example =
    performed_all-specified_all list_backend history shared_db 1 printer
