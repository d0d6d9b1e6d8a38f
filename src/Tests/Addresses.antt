-- ===== src/Tests/Addresses.antt =====
-- address.c.
use bluewing_cpp_server.Prelude.{true, false, ◌≡◌, refl, arith, some, [], ◌∷◌, All, codes}
use bluewing_cpp_server.CLib.{isspace}
use bluewing_cpp_server.Util.{begins_with, copy_string}
use bluewing_cpp_server.Address.{
  Addr, AddrInfo, inet, stream, init, split, split_step, trim_front, trim_back,
}
use bluewing_cpp_server.Address.Laws.{IsPlain, init-port}

-- The last colon counts, and the host ends at the first.
two_colons : init (codes "a:1:2") (codes "http") ≡ (codes "a", codes "2")
unfolding init split split_step trim_front trim_back isspace begins_with copy_string
two_colons = refl

blank : All (λ c. isspace c ≡ true) (codes " ")
unfolding isspace
blank = (refl, tt)

host-IsPlain : IsPlain (codes "h")
unfolding isspace
host-IsPlain = ((λ e. omega arith, refl), tt)

number-IsPlain : IsPlain (codes "80")
unfolding isspace
number-IsPlain = ((λ e. omega arith, refl), ((λ e. omega arith, refl), tt))

number_alone : begins_with (codes "80") (codes "//") ≡ false
unfolding begins_with
number_alone = refl

init-port_example : init (codes " h:80") (codes "http") ≡ (codes "h", codes "80")
init-port_example =
    init-port (codes " ") (codes "h") (codes "80") [] (codes "http") blank tt host-IsPlain
      number-IsPlain number_alone (omega arith)

abbrev local_info : AddrInfo
local_info = record { ai_socktype = stream; ai_addr = some (inet (127 ∷ 0 ∷ 0 ∷ 1 ∷ []) 80) }

abbrev local : Addr
local = record {
  hostname = codes "localhost";
  service = codes "80";
  info = some local_info;
  ready = true;
  buffer = codes "127.0.0.1:80";
}
