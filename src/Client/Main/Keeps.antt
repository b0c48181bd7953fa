-- ===== src/Client/Main/Keeps.antt =====
-- crates/litevpn-client/src/main.rs: the calls of `main` that do not touch the route table.
use rust_vpn.Prelude.{◌≡◌, Bool, true, false, Option, some, Result, ok, err, if◌then◌else◌}
use rust_vpn.Bench.{Ran, ran, failed, running}
use rust_vpn.Client.{Args, Plan}
use rust_vpn.Client.Connect.{Outcome, connected, given_up, missing}
use rust_vpn.Client.Main.{hold, probe, bench, connect}
use rust_vpn.Client.Session.{
  MainError, World, Session, Main, after, ◌>>=◌, from_result, from_option, ensure, note,
  from_outcome, from_ran, done, holds,
}

module _ {T : Type 0} (P : T → Type 0) where
  -- The call keeps what holds of the table, whether it succeeds or not.
  abbrev pub Keeps : {A : Type 0} → Main T A → Type 0
  Keeps m = (s : Session T) → P s.table → P (m s).1.table

  after-Keeps :
      {A B : Type 0} (f : A → Main T B) (r : Result MainError A × Session T)
      → ((a : A) → Keeps (f a))
      → P r.1.table
      → P (after r f).1.table
  after-Keeps f (ok a, s) h p = h a s p
  after-Keeps f (err e, s) h p = p

  pub chain-Keeps :
      {A B : Type 0} (m : Main T A) (f : A → Main T B)
      → Keeps m
      → ((a : A) → Keeps (f a))
      → Keeps (m >>= f)
  unfolding ◌>>=◌
  chain-Keeps m f h k s p = after-Keeps f (m s) k (h s p)

  pub from_result-Keeps :
      {X A : Type 0} (place : X → MainError) (r : Result X A) → Keeps (from_result place r)
  from_result-Keeps place (ok a) s p = p
  from_result-Keeps place (err e) s p = p

  -- A call whose answer is known.
  pub some_then :
      {A B : Type 0} (e : MainError) (o : Option A) (a : A) (f : A → Main T B) (s : Session T)
      → o ≡ some a
      → P (f a s).1.table
      → P ((from_option e o >>= f) s).1.table
  unfolding ◌>>=◌
  some_then e o a f s h p = rw h p

  pub ok_then :
      {X A B : Type 0} (place : X → MainError) (r : Result X A) (a : A) (f : A → Main T B)
      (s : Session T)
      → r ≡ ok a
      → P (f a s).1.table
      → P ((from_result place r >>= f) s).1.table
  unfolding ◌>>=◌
  ok_then place r a f s h p = rw h p

  pub ensure-Keeps : (b : Bool) (e : MainError) → Keeps (ensure b e)
  ensure-Keeps true e s p = p
  ensure-Keeps false e s p = p

  from_ran-Keeps : {A : Type 0} (r : Ran A) → Keeps (from_ran r)
  unfolding from_ran
  from_ran-Keeps (ran a) s p = p
  from_ran-Keeps (failed e) s p = p
  from_ran-Keeps running s p = p

  from_outcome-Keeps : {E C : Type 0} (r : Outcome E C) → Keeps (from_outcome r)
  unfolding from_outcome
  from_outcome-Keeps (connected c) s p = p
  from_outcome-Keeps (given_up e) s p = p
  from_outcome-Keeps missing s p = p

module _ {E C M T : Type 0} (w : World E C M T) (args : Args) (P : T → Type 0) where
  pub bench-Keeps : (connection : C) (plan : Plan) → Keeps P (bench w args connection plan)
  unfolding bench
  bench-Keeps connection plan = chain-Keeps P _ _ (λ s p. p) (λ u. from_ran-Keeps P _)

  pub probe-Keeps : Keeps P (probe w args)
  unfolding probe hold ◌>>=◌
  probe-Keeps = chain-Keeps P _ _ (held _) (λ u s p. p)
    where
      held : (b : Bool) → Keeps P (if b then note holds else done tt)
      held true s p = p
      held false s p = p

  pub connect-Keeps : (plan : Plan) → Keeps P (connect w args plan)
  unfolding connect
  connect-Keeps plan = from_outcome-Keeps P _
