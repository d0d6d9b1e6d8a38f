-- ===== src/Address/Laws.antt =====
-- The splitting of a host name, and ports.
use bluewing_cpp_server.Prelude.{
  ℕ, ◌%◌, ◌^◌, ◌<◌, true, false, some, [], ◌∷◌, ◌++◌, ◌≡◌, ◌≢◌, ◌∙◌, refl, sym, ap, arith, ltb,
  Bytes, All, bytes_eq_refl, codes, length, length-append, take_all, append-nil, append_assoc,
}
use bluewing_cpp_server.CLib.{isspace}
use bluewing_cpp_server.Util.{copy_string, begins_with}
use bluewing_cpp_server.Address.{
  Addr, AddrInfo, Sockaddr, split_step, split, trim_front, trim_back, init, port, set_port, equal,
  sockaddr_equal, inet, inet6,
}

-- A character of a host, a service or a scheme.
abbrev pub IsPlain : Bytes → Type 0
IsPlain s = All (λ c. (c ≢ b':') × (isspace c ≡ false)) s

split_host :
    (host rest more service : Bytes)
    → IsPlain host
    → split
        (record {
          host = more;
          host_open = true;
          service = service;
          service_open = false;
          ahead = 0;
        })
        (host ++ rest)
      ≡ split
          (record {
            host = more ++ host;
            host_open = true;
            service = service;
            service_open = false;
            ahead = 0;
          })
          rest
unfolding split split_step
split_host [] rest more service h = rw append-nil
split_host (c ∷ host) rest more service ((n, sp), h) =
    ground (arith, append_assoc more (c ∷ []) host, split_host host rest (more ++ c ∷ []) service h)

split_service :
    (service host more : Bytes)
    → IsPlain service
    → split
        (record { host = host; host_open = false; service = more; service_open = true; ahead = 0 })
        service
      ≡ record {
        host = host;
        host_open = false;
        service = more ++ service;
        service_open = true;
        ahead = 0;
      }
unfolding split split_step
split_service [] host more h = rw append-nil
split_service (c ∷ service) host more ((n, sp), h) =
    ground
      (arith, append_assoc more (c ∷ []) service, split_service service host (more ++ c ∷ []) h)

split_colon :
    (host service number : Bytes)
    → begins_with number (codes "//") ≡ false
    → split
        (record {
          host = host;
          host_open = true;
          service = service;
          service_open = false;
          ahead = 0;
        })
        (b':' ∷ number)
      ≡ split
          (record { host = host; host_open = false; service = []; service_open = true; ahead = 0 })
          number
unfolding split split_step
split_colon host service number h = rw h

split_scheme :
    (scheme service rest : Bytes)
    → split
        (record {
          host = scheme;
          host_open = true;
          service = service;
          service_open = false;
          ahead = 0;
        })
        (b':' ∷ b'/' ∷ b'/' ∷ rest)
      ≡ split
          (record {
            host = [];
            host_open = true;
            service = scheme;
            service_open = false;
            ahead = 0;
          })
          rest
unfolding split split_step begins_with
split_scheme scheme service rest = refl

trim_front-spaces :
    (pre s : Bytes)
    → All (λ c. isspace c ≡ true) pre
    → All (λ c. isspace c ≡ false) s
    → trim_front (pre ++ s) ≡ s
unfolding trim_front
trim_front-spaces [] [] h k = refl
trim_front-spaces [] (c ∷ s) h (n, k) = rw n
trim_front-spaces (p ∷ pre) s (e, h) k = rw e (trim_front-spaces pre s h k)

trim_front_kept :
    (s post : Bytes)
    → length s ≢ 0
    → All (λ c. isspace c ≡ false) s
    → trim_front (s ++ post) ≡ s ++ post
unfolding trim_front
trim_front_kept [] post z h = absurd (z refl)
trim_front_kept (c ∷ s) post z (n, h) = rw n

trim_front_lem :
    (pre s post : Bytes)
    → All (λ c. isspace c ≡ true) pre
    → length s ≢ 0
    → All (λ c. isspace c ≡ false) s
    → trim_front (pre ++ (s ++ post)) ≡ s ++ post
unfolding trim_front
trim_front_lem [] s post h z k = trim_front_kept s post z k
trim_front_lem (p ∷ pre) s post (e, h) z k = rw e (trim_front_lem pre s post h z k)

trim_back-spaces : (post : Bytes) → All (λ c. isspace c ≡ true) post → trim_back post ≡ []
unfolding trim_back
trim_back-spaces [] h = refl
trim_back-spaces (c ∷ post) (e, h) = rw (trim_back-spaces post h, e)

trim_back_lem :
    (s post : Bytes)
    → All (λ c. isspace c ≡ true) post
    → All (λ c. isspace c ≡ false) s
    → trim_back (s ++ post) ≡ s
unfolding trim_back
trim_back_lem [] post h k = trim_back-spaces post h
trim_back_lem (c ∷ []) post h (n, k) = rw (trim_back-spaces post h, n)
trim_back_lem (c ∷ d ∷ s) post h (n, k) = rw (trim_back_lem (d ∷ s) post h k)

plain_text :
    (a b : Bytes) (mid : Bytes)
    → IsPlain a
    → All (λ c. isspace c ≡ false) mid
    → IsPlain b
    → All (λ c. isspace c ≡ false) (a ++ (mid ++ b))
plain_text [] [] [] h m k = tt
plain_text [] (c ∷ b) [] h m ((n, e), k) = (e, plain_text [] b [] tt tt k)
plain_text [] b (c ∷ mid) h (e, m) k = (e, plain_text [] b mid tt m k)
plain_text (c ∷ a) b mid ((n, e), h) m k = (e, plain_text a b mid h m k)

copy_short : (s : Bytes) → length s < 64 → copy_string s 64 ≡ s
unfolding copy_string
copy_short s h =
    let short : ltb 63 (length s) ≡ false = ground arith in
    rw short (take_all (length s) s (omega arith))

split_host_end :
    (host service : Bytes)
    → IsPlain host
    → split
        (record { host = []; host_open = true; service = service; service_open = false; ahead = 0 })
        host
      ≡ record { host = host; host_open = true; service = service; service_open = false; ahead = 0 }
split_host_end host service h =
    ap
      (split (record {
        host = [];
        host_open = true;
        service = service;
        service_open = false;
        ahead = 0;
      }))
      (sym (append-nil host))
    ∙ (split_host host [] [] service h ∙ unfold split in refl)

-- A host name with a port behind a colon, with or without spaces around it, gives the host and the
-- port, which overrides the service, if neither has a colon or a space in it, and the port does not
-- begin with "//" and has less than 64 characters.
pub init-port :
    (pre host number post service : Bytes)
    → All (λ c. isspace c ≡ true) pre
    → All (λ c. isspace c ≡ true) post
    → IsPlain host
    → IsPlain number
    → begins_with number (codes "//") ≡ false
    → length number < 64
    → init (pre ++ ((host ++ b':' ∷ number) ++ post)) service ≡ (host, number)
unfolding init
init-port pre host number post service h k p q n l =
    let text = host ++ b':' ∷ number in
    let plain : All (λ c. isspace c ≡ false) text =
      plain_text host number (b':' ∷ []) p ((unfold isspace in refl), tt) q in
    rw (
      trim_front_lem pre text post h (λ z. omega (arith, z, length-append host (b':' ∷ number)))
          plain,
      trim_back_lem text post k plain,
      split_host host (b':' ∷ number) [] service p,
      split_colon host service number n,
      split_service number host [] q,
      copy_short number l,
    )

-- A host name behind a scheme and "://", with or without spaces around it, gives the host, and the
-- scheme as the service, if neither has a colon or a space in it, and the scheme has less than 64
-- characters.
pub init-scheme :
    (pre scheme host post service : Bytes)
    → All (λ c. isspace c ≡ true) pre
    → All (λ c. isspace c ≡ true) post
    → IsPlain scheme
    → IsPlain host
    → length scheme < 64
    → init (pre ++ ((scheme ++ b':' ∷ b'/' ∷ b'/' ∷ host) ++ post)) service ≡ (host, scheme)
unfolding init
init-scheme pre scheme host post service h k p q l =
    let text = scheme ++ b':' ∷ b'/' ∷ b'/' ∷ host in
    let plain : All (λ c. isspace c ≡ false) text =
      plain_text scheme host (b':' ∷ b'/' ∷ b'/' ∷ []) p
        (unfold isspace in (refl, (refl, (refl, tt)))) q in
    rw (
      trim_front_lem pre text post h
          (λ z. omega (arith, z, length-append scheme (b':' ∷ b'/' ∷ b'/' ∷ host))) plain,
      trim_back_lem text post k plain,
      split_host scheme (b':' ∷ b'/' ∷ b'/' ∷ host) [] service p,
      split_scheme scheme service host,
      split_host_end host scheme q,
      copy_short scheme l,
    )

-- The port of a resolved address, after it is set, is the number modulo 2 ^ 16, and the address is
-- equal to what it was.
pub port-set_port :
    (ctx : Addr) (p : ℕ) (info : AddrInfo) (a : Sockaddr)
    → ctx.ready ≡ true
    → ctx.info ≡ some info
    → info.ai_addr ≡ some a
    → (port (set_port ctx p) ≡ p % 2 ^ 16) × (equal (set_port ctx p) ctx ≡ true)
unfolding port set_port equal sockaddr_equal
port-set_port ctx p info (inet a q) r e f = rw (r, e, f) (refl, bytes_eq_refl a)
port-set_port ctx p info (inet6 a q) r e f = rw (r, e, f) (refl, bytes_eq_refl a)
