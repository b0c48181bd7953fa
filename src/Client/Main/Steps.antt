-- ===== src/Client/Main/Steps.antt =====
-- crates/litevpn-client/src/main.rs: how the calls of `main` change its log.
use rust_vpn.Prelude.{
  ◌≡◌, refl, Bool, true, false, Option, none, some, Result, ok, err, List, ◌∷◌, ◌∙◌, ap,
  if◌then◌else◌, sym, subst,
}
use rust_vpn.Bench.{Ran, ran, failed, running}
use rust_vpn.Client.{Args}
use rust_vpn.Client.Connect.{Outcome, connected, given_up, missing}
use rust_vpn.Client.Main.{
  install_guard, cleanup_guard, drop_on_error, dropping, open_streams, serve, remove_stale,
}
use rust_vpn.Client.Routes.{RouteGuard}
use rust_vpn.Client.Session.{
  MainError, World, Session, Main, after, ◌>>=◌, from_result, from_option, ensure, note, Action,
  serves, open_failed, accept_failed, from_outcome, from_ran, done,
}
use rust_vpn.Core.Config.{VpnTransportMode, datagram, stream}
use rust_vpn.Core.Config.Client.{ClientConfig}
use rust_vpn.Text.{Text}

module _ {T : Type 0} (P : List Action → Type 0) where
  -- From this log the call ends, successful or not, with a log that P describes.
  abbrev pub Ends : {A : Type 0} → List Action → Main T A → Type 0
  Ends l m = (s : Session T) → s.log ≡ l → P (m s).1.log

  pub result-Ends :
      {X A : Type 0} (place : X → MainError) (r : Result X A) (l : List Action)
      → P l
      → Ends l (from_result place r)
  result-Ends place (ok a) l p s e = subst P (sym e) p
  result-Ends place (err x) l p s e = subst P (sym e) p

  pub ran-Ends : {A : Type 0} (r : Ran A) (l : List Action) → P l → Ends l (from_ran r)
  unfolding from_ran
  ran-Ends (ran a) l p s e = subst P (sym e) p
  ran-Ends (failed x) l p s e = subst P (sym e) p
  ran-Ends running l p s e = subst P (sym e) p

  pub ensure-Ends : (b : Bool) (x : MainError) (l : List Action) → P l → Ends l (ensure b x)
  ensure-Ends true x l p s e = subst P (sym e) p
  ensure-Ends false x l p s e = subst P (sym e) p

  pub if_Ends :
      {A : Type 0} (b : Bool) (m k : Main T A) (l : List Action)
      → (b ≡ true → Ends l m)
      → (b ≡ false → Ends l k)
      → Ends l (if b then m else k)
  if_Ends true m k l h i = h refl
  if_Ends false m k l h i = i refl

  pub result_then :
      {X A B : Type 0} (place : X → MainError) (r : Result X A) (f : A → Main T B) (l : List Action)
      → P l
      → ((a : A) → r ≡ ok a → Ends l (f a))
      → Ends l (from_result place r >>= f)
  unfolding ◌>>=◌
  result_then place (ok a) f l p h s e = h a refl s e
  result_then place (err x) f l p h s e = subst P (sym e) p

  pub option_then :
      {A B : Type 0} (x : MainError) (o : Option A) (f : A → Main T B) (l : List Action)
      → P l
      → ((a : A) → o ≡ some a → Ends l (f a))
      → Ends l (from_option x o >>= f)
  unfolding ◌>>=◌
  option_then x (some a) f l p h s e = h a refl s e
  option_then x none f l p h s e = subst P (sym e) p

  pub ensure_then :
      {B : Type 0} (b : Bool) (x : MainError) (f : Unit {0} → Main T B) (l : List Action)
      → P l
      → (b ≡ true → Ends l (f tt))
      → Ends l (ensure b x >>= f)
  unfolding ◌>>=◌
  ensure_then true x f l p h s e = h refl s e
  ensure_then false x f l p h s e = subst P (sym e) p

  pub note_then :
      {B : Type 0} (x : Action) (f : Unit {0} → Main T B) (l : List Action)
      → Ends (x ∷ l) (f tt)
      → Ends l (note x >>= f)
  unfolding ◌>>=◌
  note_then x f l h s e = h _ (ap (λ (k : List Action). x ∷ k) e)

  pub outcome_then :
      {E C B : Type 0} (r : Outcome E C) (f : C → Main T B) (l : List Action)
      → P l
      → ((c : C) → r ≡ connected c → Ends l (f c))
      → Ends l (from_outcome r >>= f)
  unfolding ◌>>=◌ from_outcome
  outcome_then (connected c) f l p h s e = h c refl s e
  outcome_then (given_up x) f l p h s e = subst P (sym e) p
  outcome_then missing f l p h s e = subst P (sym e) p

  after_quiet :
      {A B : Type 0} (f : A → Main T B) (l : List Action) (r : Result MainError A × Session T)
      → P l
      → ((a : A) → Ends l (f a))
      → r.1.log ≡ l
      → P (after r f).1.log
  after_quiet f l (ok a, s) p h e = h a s e
  after_quiet f l (err x, s) p h e = subst P (sym e) p

  -- A call that does nothing to the log.
  pub quiet_then :
      {A B : Type 0} (m : Main T A) (f : A → Main T B) (l : List Action)
      → ((s : Session T) → (m s).1.log ≡ s.log)
      → P l
      → ((a : A) → Ends l (f a))
      → Ends l (m >>= f)
  unfolding ◌>>=◌
  quiet_then m f l quiet p h s e = after_quiet f l (m s) p h (quiet s ∙ e)

module _ {T : Type 0} where
  from_result_log :
      {X A : Type 0} (place : X → MainError) (r : Result X A) (s : Session T)
      → (from_result place r s).1.log ≡ s.log
  from_result_log place (ok a) s = refl
  from_result_log place (err e) s = refl

  if_log :
      {A : Type 0} (b : Bool) (m k : Main T A)
      → ((s : Session T) → (m s).1.log ≡ s.log)
      → ((s : Session T) → (k s).1.log ≡ s.log)
      → (s : Session T) → ((if b then m else k) s).1.log ≡ s.log
  if_log true m k h i s = h s
  if_log false m k h i s = i s

  after_done_log :
      {A B : Type 0} (f : A → B) (r : Result MainError A × Session T)
      → (after r (λ a. done (f a))).1.log ≡ r.1.log
  after_done_log f (ok a, s) = refl
  after_done_log f (err e, s) = refl

module _ {E C M T : Type 0} (w : World E C M T) (args : Args) where
  pub remove_stale_log :
      (config : ClientConfig) (server : Option Text) (s : Session T)
      → (remove_stale w args config server s).1.log ≡ s.log
  unfolding remove_stale
  remove_stale_log config server = if_log _ _ _ (λ s. from_result_log _ _ _) (λ s. refl)

  cleanup_guard_log :
      (guard : Option RouteGuard) (s : Session T) → (cleanup_guard w args guard s).1.log ≡ s.log
  unfolding cleanup_guard
  cleanup_guard_log none s = refl
  cleanup_guard_log (some guard) s = refl

  -- Cleaning up does not fail.
  pub cleanup_then :
      {B : Type 0} (P : List Action → Type 0) (guard : Option RouteGuard)
      (f : Option RouteGuard → Main T B) (l : List Action)
      → ((removed : Option RouteGuard) → Ends P l (f removed))
      → Ends P l (cleanup_guard w args guard >>= f)
  unfolding cleanup_guard ◌>>=◌
  cleanup_then P none f l h s e = h none s e
  cleanup_then P (some guard) f l h s e = h _ _ e

  pub install_guard_log :
      (config : ClientConfig) (server : Option Text) (s : Session T)
      → (install_guard w args config server s).1.log ≡ s.log
  unfolding install_guard ◌>>=◌
  install_guard_log config server =
      if_log _ _ _ (λ s. after_done_log some _ ∙ from_result_log _ _ _) (λ s. refl)

  open_streams_log :
      (mode : VpnTransportMode) (s : Session T) → (open_streams w args mode s).1.log ≡ s.log
  unfolding open_streams ◌>>=◌
  open_streams_log datagram s = refl
  open_streams_log stream s = both w.opens_uni w.accepts_uni
    where
      both :
          (a b : Bool)
          → (after (ensure a open_failed s) (λ u. ensure b accept_failed)).1.log ≡ s.log
      both true true = refl
      both true false = refl
      both false b = refl

  -- `serve` behind `dropping`: it fails with the log as it was, or the pumps have run.
  pub serve_then :
      {B : Type 0} (P : List Action → Type 0) (guard : Option RouteGuard) (mode : VpnTransportMode)
      (f : Unit {0} → Main T B) (l : List Action)
      → P l
      → Ends P (serves mode ∷ l) (f tt)
      → Ends P l (dropping w args guard (serve w args mode) >>= f)
  unfolding dropping serve ◌>>=◌
  serve_then P guard mode f l p h s e =
      cases (open_streams w args mode s) (open_streams_log mode s ∙ e)
    where
      cases :
          (r : Result MainError (Unit {0}) × Session T)
          → r.1.log ≡ l
          → P (after (drop_on_error w args guard (after r (λ u. note (serves mode)))) f).1.log
      cases (ok u, s') e' = h _ (ap (λ (k : List Action). serves mode ∷ k) e')
      cases (err x, s') e' = subst P (sym (cleanup_guard_log guard s' ∙ e')) p
