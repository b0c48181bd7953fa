-- ===== src/Server/Ids.antt =====
-- crates/litevpn-server/src/main.rs: the numbers of the clients.
use rust_vpn.Prelude.{ℕ, suc, ◌+◌, ◌^◌, ◌%◌, ◌<◌, ◌≤◌, ◌≡◌, refl, Option, none, some, arith, subst}
use rust_vpn.Server.{
  Phase, authenticating, numbered, replacing, serving, ended, finished, Server, set, after_auth,
  take_id, replace, close_previous, clean_up, Step, accept, authenticated, bench_ends, id_taken,
  replaced, previous_closed, pumps_end, cleaned_up,
}
use rust_vpn.Core.Auth.{AuthMode, vpn, bench}
use rust_vpn.Core.Config.{VpnTransportMode, datagram, stream}

-- The number that a task has.
unfoldable pub id_of : Phase → Option ℕ
id_of (numbered id) = some id
id_of (replacing id previous) = some id
id_of (serving id) = some id
id_of (ended client_id) = client_id
id_of _ = none

-- The numbers that are in use are different, and below the next one.
pub record IsNumbered (tasks : ℕ → Phase) (next_client_id : ℕ) : Type 0 where
  pub below : (n i : ℕ) → id_of (tasks n) ≡ some i → i < next_client_id
  pub unique : (n m i : ℕ) → id_of (tasks n) ≡ some i → id_of (tasks m) ≡ some i → n ≡ m

-- A task that keeps or gives up its number.
pub keeps-IsNumbered :
    (tasks : ℕ → Phase) (next n : ℕ) (phase : Phase)
    → ((i : ℕ) → id_of phase ≡ some i → id_of (tasks n) ≡ some i)
    → IsNumbered tasks next
    → IsNumbered (set n phase tasks) next
keeps-IsNumbered tasks next n phase keeps h = record { below = below; unique = unique }
  where
    back : (k i : ℕ) → id_of (set n phase tasks k) ≡ some i → id_of (tasks k) ≡ some i
    back k i e = ground (arith, keeps i)

    below : (k i : ℕ) → id_of (set n phase tasks k) ≡ some i → i < next
    below k i e = h.below k i (back k i e)

    unique :
        (k m i : ℕ)
        → id_of (set n phase tasks k) ≡ some i
        → id_of (set n phase tasks m) ≡ some i
        → k ≡ m
    unique k m i e f = h.unique k m i (back k i e) (back m i f)

-- A task that takes the next number.
pub takes-IsNumbered :
    (tasks : ℕ → Phase) (next n : ℕ)
    → IsNumbered tasks next
    → IsNumbered (set n (numbered next) tasks) (suc next)
takes-IsNumbered tasks next n h = record { below = below; unique = unique }
  where
    below : (k i : ℕ) → id_of (set n (numbered next) tasks k) ≡ some i → i < suc next
    below k i e = unfold id_of in ground (arith, h.below k i)

    unique :
        (k m i : ℕ)
        → id_of (set n (numbered next) tasks k) ≡ some i
        → id_of (set n (numbered next) tasks m) ≡ some i
        → k ≡ m
    unique k m i e f = unfold id_of in ground (arith, h.unique k m i, h.below k i, h.below m i)

after_auth-numberless :
    (mode : Option AuthMode) (t : VpnTransportMode) (max : Option ℕ) (mtu : ℕ)
    → id_of (after_auth mode t max mtu) ≡ none
unfolding id_of after_auth
after_auth-numberless none t max mtu = refl
after_auth-numberless (some (bench d n p g)) t max mtu = refl
after_auth-numberless (some vpn) stream max mtu = refl
after_auth-numberless (some vpn) datagram max mtu = ground arith

-- The numbers do not wrap around before the 64 bits are used up.
pub IsNumbered-Step :
    {s t : Server}
    → Step s t
    → s.next_client_id + 1 < 2 ^ 64
    → IsNumbered s.tasks s.next_client_id
    → IsNumbered t.tasks t.next_client_id × (t.next_client_id ≤ s.next_client_id + 1)
IsNumbered-Step {s} (accept n e) l h = (
  keeps-IsNumbered s.tasks s.next_client_id n authenticating (λ i r. unfold id_of in ground arith)
      h,
  omega arith,
)
IsNumbered-Step {s} (authenticated n mode t max mtu e) l h = (
  keeps-IsNumbered s.tasks s.next_client_id n (after_auth mode t max mtu)
      (λ i r. ground (arith, after_auth-numberless mode t max mtu)) h,
  omega arith,
)
IsNumbered-Step {s} (bench_ends n e) l h = (
  keeps-IsNumbered s.tasks s.next_client_id n (ended none) (λ i r. unfold id_of in ground arith) h,
  omega arith,
)
IsNumbered-Step {s} (id_taken n e) l h =
    let wrap : suc s.next_client_id ≡ (s.next_client_id + 1) % 2 ^ 64 = omega arith in
    unfold take_id in
    (
      subst (IsNumbered (set n (numbered s.next_client_id) s.tasks)) wrap
          (takes-IsNumbered s.tasks s.next_client_id n h),
      omega arith,
    )
IsNumbered-Step {s} (replaced n id e) l h =
    unfold replace in
    (
      keeps-IsNumbered s.tasks s.next_client_id n (replacing id s.active)
          (λ i r. unfold id_of in ground arith) h,
      omega arith,
    )
IsNumbered-Step {s} (previous_closed n id none e) l h =
    unfold close_previous in
    (
      keeps-IsNumbered s.tasks s.next_client_id n (serving id) (λ i r. unfold id_of in ground arith)
          h,
      omega arith,
    )
IsNumbered-Step {s} (previous_closed n id (some previous) e) l h =
    unfold close_previous in
    (
      keeps-IsNumbered s.tasks s.next_client_id n (serving id) (λ i r. unfold id_of in ground arith)
          h,
      omega arith,
    )
IsNumbered-Step {s} (pumps_end n id e) l h = (
  keeps-IsNumbered s.tasks s.next_client_id n (ended (some id))
      (λ i r. unfold id_of in ground arith) h,
  omega arith,
)
IsNumbered-Step {s} (cleaned_up n none e) l h =
    unfold clean_up in
    (
      keeps-IsNumbered s.tasks s.next_client_id n finished (λ i r. unfold id_of in ground arith) h,
      omega arith,
    )
IsNumbered-Step {s} (cleaned_up n (some id) e) l h =
    unfold clean_up in
    (
      keeps-IsNumbered s.tasks s.next_client_id n finished (λ i r. unfold id_of in ground arith) h,
      omega arith,
    )
