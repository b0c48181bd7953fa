-- ===== src/Client/Routes/Lookup/Stale.antt =====
-- crates/litevpn-client/src/macos_routes.rs: what `cleanup_stale` leaves in the route table.
use rust_vpn.Prelude.{
  ◌≡◌, refl, Bool, true, false, some, Result, ok, err, List, [], ◌∷◌, ◌++◌, arith, list_eq_refl,
  ◌⊎◌, inl, inr, Bool-cases,
}
use rust_vpn.Client.Routes.{Answer, Command, lower_half, upper_half, RouteError}
use rust_vpn.Client.Routes.Guard.{RouteLaws, IsClean, cleanup_routes-IsClean}
use rust_vpn.Client.Routes.Lookup.{
  Output, unstarted, exited, is_litevpn_route_destination, is_stale_line, any_line,
  stale_routes_present, stale_result, after_stale, cleanup_stale,
}
use rust_vpn.Text.{Text, chars}
use rust_vpn.Text.Lines.{lines}
use rust_vpn.Text.Words.{words}

-- A line whose first word is one of the two names of a destination.
abbrev pub Shows : Text → Text → List Text → Type 0
Shows short long [] = ⊥
Shows short long (line ∷ ls) =
    (((rest : List Text) × (words line ≡ short ∷ rest))
      ⊎ ((rest : List Text) × (words line ≡ long ∷ rest)))
    ⊎ Shows short long ls

Shows-any :
    (server_ip short long : Text)
    → is_litevpn_route_destination short server_ip ≡ true
    → is_litevpn_route_destination long server_ip ≡ true
    → (ls : List Text) → Shows short long ls
    → any_line server_ip ls ≡ true
unfolding any_line is_stale_line
Shows-any server_ip short long s l [] h = absurd h
Shows-any server_ip short long s l (line ∷ ls) (inl (inl (rest, e))) = rw (e, s) refl
Shows-any server_ip short long s l (line ∷ ls) (inl (inr (rest, e))) = rw (e, l) refl
Shows-any server_ip short long s l (line ∷ ls) (inr h) =
    ground (arith, Shows-any server_ip short long s l ls h)

-- The names that `netstat` has for the destinations of the client.
own_destinations :
    (server_ip : Text)
    → ((is_litevpn_route_destination (chars "0/1") server_ip ≡ true)
        × (is_litevpn_route_destination lower_half server_ip ≡ true))
      × ((is_litevpn_route_destination (chars "128.0/1") server_ip ≡ true)
          × (is_litevpn_route_destination upper_half server_ip ≡ true))
      × ((is_litevpn_route_destination server_ip server_ip ≡ true)
          × (is_litevpn_route_destination (server_ip ++ chars "/32") server_ip ≡ true))
unfolding is_litevpn_route_destination
own_destinations server_ip = (
  (refl, refl),
  (refl, refl),
  (ground (arith, list_eq_refl server_ip), ground (arith, list_eq_refl (server_ip ++ chars "/32"))),
)

module _ {T : Type 0} (route : T → Command → Answer × T) (has : T → Text → Bool)
    (laws : RouteLaws route has) (netstat : T → Output) where
  -- What `netstat` documents: where it succeeds, each destination of the client that is in the table
  -- has a line that begins with it, in the long or the short form.
  pub record IsListed (t : T) (server_ip : Text) : Type 0 where
    pub lower :
        (stdout : Text)
        → netstat t ≡ exited true stdout
        → has t lower_half ≡ true
        → Shows (chars "0/1") lower_half (lines stdout)
    pub upper :
        (stdout : Text)
        → netstat t ≡ exited true stdout
        → has t upper_half ≡ true
        → Shows (chars "128.0/1") upper_half (lines stdout)
    pub server :
        (stdout : Text)
        → netstat t ≡ exited true stdout
        → has t server_ip ≡ true
        → Shows server_ip (server_ip ++ chars "/32") (lines stdout)

  -- No line shows a destination that `any` does not find.
  unlisted :
      (t : T) (server_ip destination short long : Text) (ls : List Text)
      → any_line server_ip ls ≡ false
      → is_litevpn_route_destination short server_ip ≡ true
      → is_litevpn_route_destination long server_ip ≡ true
      → (has t destination ≡ true → Shows short long ls)
      → has t destination ≡ false
  unlisted t server_ip destination short long ls none s l h =
      elim (Bool-cases (has t destination)) [
        | inl e ↦ absurd (cc (Shows-any server_ip short long s l ls (h e), none))
        | inr e ↦ e
      ]

  unlisted-IsClean :
      (t : T) (server_ip stdout : Text)
      → IsListed t server_ip
      → netstat t ≡ exited true stdout
      → any_line server_ip (lines stdout) ≡ false
      → IsClean route has laws t server_ip
  unlisted-IsClean t server_ip stdout h e none =
      let ((a, b), (c, d), (p, q)) = own_destinations server_ip in
      record {
        lower =
            unlisted t server_ip lower_half (chars "0/1") lower_half (lines stdout) none a b
              (h.lower stdout e);
        upper =
            unlisted t server_ip upper_half (chars "128.0/1") upper_half (lines stdout) none c d
              (h.upper stdout e);
        server =
            unlisted t server_ip server_ip server_ip (server_ip ++ chars "/32") (lines stdout) none
              p q (h.server stdout e);
      }

  after_stale-IsClean :
      (t : T) (server_ip : Text) (present : Result RouteError Bool)
      → (present ≡ ok false → IsClean route has laws t server_ip)
      → (after_stale route netstat t server_ip present).0 ≡ ok tt
      → IsClean route has laws (after_stale route netstat t server_ip present).1 server_ip
  unfolding after_stale
  after_stale-IsClean t server_ip (err e) h o = cc
  after_stale-IsClean t server_ip (ok false) h o = h refl
  after_stale-IsClean t server_ip (ok true) h o =
      cleanup_routes-IsClean route has laws t server_ip (removed _ o)
    where
      removed : (b : Bool) → stale_result b ≡ ok tt → b ≡ true
      removed true e = refl
      removed false e = cc

  stale_absent :
      (t : T) (server_ip : Text) (out : Output)
      → netstat t ≡ out
      → IsListed t server_ip
      → stale_routes_present out server_ip ≡ ok false
      → IsClean route has laws t server_ip
  unfolding stale_routes_present
  stale_absent t server_ip unstarted e h absent = cc
  stale_absent t server_ip (exited false stdout) e h absent = cc
  stale_absent t server_ip (exited true stdout) e h absent =
      unlisted-IsClean t server_ip stdout h e (cc)

  -- Where `netstat` shows the routes of the client that the table has, `cleanup_stale` succeeds only
  -- with a table that has none of them: it has found none, or has removed them.
  pub cleanup_stale-IsClean :
      (t : T) (server_ip : Text)
      → IsListed t server_ip
      → (cleanup_stale route netstat t (some server_ip)).0 ≡ ok tt
      → IsClean route has laws (cleanup_stale route netstat t (some server_ip)).1 server_ip
  unfolding cleanup_stale
  cleanup_stale-IsClean t server_ip h o =
      after_stale-IsClean t server_ip (stale_routes_present (netstat t) server_ip)
        (stale_absent t server_ip (netstat t) refl h) o
