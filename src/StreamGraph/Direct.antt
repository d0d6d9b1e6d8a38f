-- ===== src/StreamGraph/Direct.antt =====
-- What find_next_direct finds, and what is read.
use bluewing_cpp_server.Prelude.{
  ℕ, zero, suc, ◌≤◌, Bool, true, false, Option, none, some, List, [], ◌∷◌, if◌then◌else◌, ◌≡◌, refl,
  sym, arith, ◌>>=◌, All, subst,
}
use bluewing_cpp_server.StreamGraph.{
  all_bytes, Link, Streams, Found, take_direct, direct_links, find_next_direct, biggest, read_size,
}

-- What a call that returns true has found.
abbrev pub Returns : (Option ℕ → Type 0) → Found → Type 0
Returns Q none = Unit
Returns Q (some (true, (direct, bytes))) = Q direct
Returns Q (some (false, found)) = Unit

Returns-if :
    (Q : Option ℕ → Type 0) (b : Bool) (x y : Found)
    → Returns Q x
    → Returns Q y
    → Returns Q (if b then x else y)
Returns-if Q true x y p q = p
Returns-if Q false x y p q = q

Returns-bind :
    (Q R : Option ℕ → Type 0) (found : Found) (k : Option ℕ → ℕ → Found)
    → Returns Q found
    → ((d : Option ℕ) (b : ℕ) → Q d → Returns R (k d b))
    → Returns R (found >>= (λ (ok, (d, b)). if ok then k d b else some (false, (d, b))))
Returns-bind Q R none k p h = tt
Returns-bind Q R (some (true, (d, b))) k p h = h d b p
Returns-bind Q R (some (false, (d, b))) k p h = tt

Returns-map :
    (Q R : Option ℕ → Type 0) (found : Found)
    → ((d : Option ℕ) → Q d → R d)
    → Returns Q found
    → Returns R found
Returns-map Q R none h p = tt
Returns-map Q R (some (true, (d, b))) h p = h d p
Returns-map Q R (some (false, found)) h p = tt

-- Nothing is found.
Nowhere : Option ℕ → Type 0
Nowhere d = ⊥

any_found : (found : Found) → Returns (λ d. Unit) found
any_found none = tt
any_found (some (true, (d, b))) = tt
any_found (some (false, found)) = tt

-- Calls that find no second stream.
abbrev pub FindsOne : (ℕ → Option ℕ → ℕ → Found) → Type 0
FindsOne find = (stream d bytes : ℕ) → Returns (λ e. e ≡ some d) (find stream (some d) bytes)

-- With a stream found, any link fails.
links_full :
    (transparent : ℕ → Bool) (find : ℕ → Option ℕ → ℕ → Found)
    → FindsOne find
    → (link : Link) (links : List Link) (d bytes : ℕ)
    → Returns (λ e. ⊥) (direct_links transparent find (link ∷ links) (some d) bytes)
unfolding direct_links take_direct
links_full transparent find f link links d bytes =
    Returns-if (λ e. ⊥) (transparent link.to_exp) _ _
      (Returns-bind (λ e. e ≡ some d) (λ e. ⊥) _ _ (f link.to_exp d _)
        (λ e b p.
          subst
            (λ x.
              Returns (λ y. ⊥) (take_direct link.to_exp x b (direct_links transparent find links)))
            (sym p) tt))
      tt

links_kept :
    (transparent : ℕ → Bool) (find : ℕ → Option ℕ → ℕ → Found)
    → FindsOne find
    → (links : List Link) (d bytes : ℕ)
    → Returns (λ e. e ≡ some d) (direct_links transparent find links (some d) bytes)
unfolding direct_links
links_kept transparent find f [] d bytes = refl
links_kept transparent find f (link ∷ links) d bytes =
    Returns-map (λ e. ⊥) (λ e. e ≡ some d) _ (λ e p. absurd p)
      (links_full transparent find f link links d bytes)

find_next_direct-FindsOne : (fuel : ℕ) (s : Streams) → FindsOne (find_next_direct fuel s)
unfolding find_next_direct
find_next_direct-FindsOne zero s stream d bytes = tt
find_next_direct-FindsOne (suc fuel) s stream d bytes =
    links_kept s.is_transparent (find_next_direct fuel s) (find_next_direct-FindsOne fuel s)
      (s.next_expanded stream) d bytes

-- The stream that the only link leads to.
abbrev pub IsSole : List Link → Option ℕ → Type 0
IsSole [] direct = direct ≡ none
IsSole (link ∷ []) direct = direct ≡ some link.to_exp
IsSole (link ∷ other ∷ links) direct = ⊥

links_behind :
    (transparent : ℕ → Bool) (find : ℕ → Option ℕ → ℕ → Found)
    → FindsOne find
    → (link : Link) (links : List Link) (bytes : ℕ)
    → Returns (IsSole (link ∷ links)) (direct_links transparent find links (some link.to_exp) bytes)
unfolding direct_links
links_behind transparent find f link [] bytes = refl
links_behind transparent find f link (other ∷ links) bytes =
    links_full transparent find f other links link.to_exp bytes

taken-IsSole :
    (transparent : ℕ → Bool) (find : ℕ → Option ℕ → ℕ → Found)
    → FindsOne find
    → (link : Link) (links : List Link) (e : Option ℕ) (bytes : ℕ)
    → Returns
        (IsSole (link ∷ links))
        (take_direct link.to_exp e bytes (direct_links transparent find links))
unfolding take_direct
taken-IsSole transparent find f link links none bytes =
    links_behind transparent find f link links bytes
taken-IsSole transparent find f link links (some d) bytes = tt

links-IsSole :
    (transparent : ℕ → Bool) (find : ℕ → Option ℕ → ℕ → Found)
    → FindsOne find
    → (links : List Link) (bytes : ℕ)
    → Returns (IsSole links) (direct_links transparent find links none bytes)
unfolding direct_links take_direct
links-IsSole transparent find f [] bytes = refl
links-IsSole transparent find f (link ∷ links) bytes =
    Returns-if (IsSole (link ∷ links)) (transparent link.to_exp) _ _
      (Returns-bind (λ e. Unit) (IsSole (link ∷ links)) _ _ (any_found _)
        (λ e b u. taken-IsSole transparent find f link links e b))
      (links_behind transparent find f link links _)

-- Where find_next_direct returns true, the stream has no link, and nothing is found, or it has a single
-- one, and what is found is the stream that this leads to, whether or not that is transparent: nothing
-- behind a transparent stream is ever found.
pub find_next_direct-IsSole :
    (fuel : ℕ) (s : Streams) (stream bytes : ℕ)
    → Returns (IsSole (s.next_expanded stream)) (find_next_direct fuel s stream none bytes)
unfolding find_next_direct
find_next_direct-IsSole zero s stream bytes = tt
find_next_direct-IsSole (suc fuel) s stream bytes =
    links-IsSole s.is_transparent (find_next_direct fuel s) (find_next_direct-FindsOne fuel s)
      (s.next_expanded stream) bytes

biggest-all :
    (links : List Link)
    → All (λ l. l.bytes_left ≤ all_bytes) links
    → biggest links all_bytes ≡ all_bytes
unfolding biggest
biggest-all [] h = refl
biggest-all (link ∷ links) h = ground (arith, biggest-all links h.1, h.0)

-- A read without a limit asks for everything, whatever the links have left.
pub read_size-all :
    (s : Streams) (stream : ℕ)
    → All (λ l. l.bytes_left ≤ all_bytes) (s.next stream)
    → read_size s stream all_bytes ≡ all_bytes
unfolding read_size
read_size-all s stream h = biggest-all (s.next stream) h
