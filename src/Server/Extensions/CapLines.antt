-- ===== src/Server/Extensions/CapLines.antt =====
-- The lines of CAPA in pop3server/conn.go: none of them needs byte-stuffing.
use go_pop.Prelude.{
  ℕ, Bool, true, false, not, ◌&&◌, List, [], ◌∷◌, ◌++◌, ◌==◌, ◌≡◌, refl, arith, All, All-append,
  if-case,
}
use go_pop.Text.{Bytes, codes, join}
use go_pop.Protocol.{Capability}
use go_pop.Server.Parse.{is_crlf}
use go_pop.Server.Session.{Session}
use go_pop.Server.Conn.{Conn, Options}
use go_pop.Server.Maildrop.{crlf}
use go_pop.Server.Maildrop.Listing.{IsLine}
use go_pop.Server.Extensions.{cap_suppressed, mechanisms}
use go_pop.Server.Extensions.Capabilities.{cap_text, cap, builtin, select, visible, advertised}

-- The text of a capability is a line that needs no stuffing.
abbrev pub IsCapLine : Capability → Type 0
IsCapLine k = IsLine (cap_text k ++ crlf)

-- Texts without CR and LF.
abbrev pub no_crlf : Bytes → Bool
no_crlf [] = true
no_crlf (c ∷ t) = not (is_crlf c) && no_crlf t

pub no_crlf_lem : (t : Bytes) → no_crlf t ≡ true → All (λ c. is_crlf c ≡ false) t
no_crlf_lem [] h = tt
no_crlf_lem (c ∷ t) h = (ground arith, no_crlf_lem t (ground arith))

join-clean :
    (ms : List Bytes)
    → All (All (λ c. is_crlf c ≡ false)) ms
    → All (λ c. is_crlf c ≡ false) (join ms)
unfolding join
join-clean [] h = tt
join-clean (m ∷ []) (hm, h) = hm
join-clean (m ∷ n ∷ ms) (hm, h) =
    All-append (λ c. is_crlf c ≡ false) m (b' ' ∷ join (n ∷ ms)) hm (refl, join-clean (n ∷ ms) h)

-- A name whose first byte is no dot, and parameters without CR and LF.
word-IsCapLine :
    (first : ℕ) (t : Bytes) (params : List Bytes)
    → no_crlf (first ∷ t) ≡ true
    → (first == b'.') ≡ false
    → All (All (λ c. is_crlf c ≡ false)) params
    → IsCapLine (cap (first ∷ t) params)
unfolding cap_text
word-IsCapLine first t [] h undotted params = record {
  first = first;
  text = t;
  whole = refl;
  clean = no_crlf_lem (first ∷ t) h;
  undotted = undotted;
}
word-IsCapLine first t (p ∷ ps) h undotted params = record {
  first = first;
  text = t ++ (codes " " ++ join (p ∷ ps));
  whole = refl;
  clean =
      All-append (λ c. is_crlf c ≡ false) (first ∷ t) (b' ' ∷ join (p ∷ ps))
        (no_crlf_lem (first ∷ t) h) (refl, join-clean (p ∷ ps) params);
  undotted = undotted;
}

select-All :
    (P : Capability → Type 0) (t : List (Bool × Capability)) → All (λ r. P r.1) t → All P (select t)
unfolding select
select-All P [] h = tt
select-All P ((true, k) ∷ t) (hk, h) = (hk, select-All P t h)
select-All P ((false, k) ∷ t) (hk, h) = select-All P t h

module _ {S : Type 0} (iface : Session S) (opts : Options S) where
  visible-All :
      (P : Capability → Type 0) (ks : List Capability) → All P ks → All P (visible iface opts ks)
  unfolding visible
  visible-All P [] h = tt
  visible-All P (k ∷ ks) (hk, h) =
      if-case (All P) (cap_suppressed iface opts k.name) _ _ (visible-All P ks h)
        (hk, visible-All P ks h)

  pub advertised-All :
      (c : Conn S)
      → All (All (λ b. is_crlf b ≡ false)) (mechanisms iface opts c)
      → All IsCapLine opts.caps
      → All IsCapLine (advertised iface opts c)
  advertised-All c mechs custom =
      visible-All IsCapLine (select (builtin iface opts c) ++ opts.caps) (
        All-append IsCapLine (select (builtin iface opts c)) opts.caps
          (select-All IsCapLine (builtin iface opts c) (
            word-IsCapLine _ _ [] refl refl tt,
            (
              word-IsCapLine _ _ [] refl refl tt,
              (
                word-IsCapLine _ _ [] refl refl tt,
                (
                  word-IsCapLine _ _ [] refl refl tt,
                  (
                    word-IsCapLine _ _ [] refl refl tt,
                    (
                      word-IsCapLine _ _ [] refl refl tt,
                      (
                        word-IsCapLine _ _ (mechanisms iface opts c) refl refl mechs,
                        (
                          word-IsCapLine _ _ [] refl refl tt,
                          (word-IsCapLine _ _ [] refl refl tt, tt),
                        ),
                      ),
                    ),
                  ),
                ),
              ),
            ),
          ))
          custom)
