-- ===== src/Security/Approvals/Steps.antt =====
-- What the two loops of `ensure_project_approvals` do to the approvals of the project.
use mathlib.Core.Path.{subst}
use derico_sandbox.Config.Firewall.{FirewallEntry}
use derico_sandbox.Errors.{ok, >>=-eq-ok, ok_injective}
use derico_sandbox.Host.{Host}
use derico_sandbox.Prelude.{
  All, Bool, List, String, [], arith, contains, contains-append, eq_iff, false, nat_Eq, refl,
  string_Eq, true, ◌++◌, ◌||◌, ◌∷◌, ◌≡◌, ap, sym, ◌∙◌,
}
use derico_sandbox.Security.Approvals.{
  Session, approve_entry, approve_mount, consent, firewall_key, approve_entries, approve_mounts,
}
use derico_sandbox.Security.Ledger.{Approvals}
use derico_sandbox.Config.Mounts
use derico_sandbox.Config.Mounts.{Mount}

-- A mount that needs no question, and an endpoint that needs none.
abbrev pub covers_mount : Approvals → Mount → Bool
covers_mount a m = m.inside_project || contains a.mounts (Mounts.approval_key m)

abbrev pub covers_entry : Approvals → FirewallEntry → Bool
covers_entry a e = contains a.firewall (firewall_key e)

-- The approvals hold all that the first ones hold.
pub record Extends (a b : Approvals) : Type 0 where
  pub mounts : (k : String) → contains a.mounts k ≡ true → contains b.mounts k ≡ true
  pub firewall : (k : String) → contains a.firewall k ≡ true → contains b.firewall k ≡ true

Extends-refl : (a : Approvals) → Extends a a
Extends-refl a = record { mounts = λ k h. h; firewall = λ k h. h }

Extends-trans : {a b c : Approvals} → Extends a b → Extends b c → Extends a c
Extends-trans f g = record {
  mounts = λ k h. g.mounts k (f.mounts k h);
  firewall = λ k h. g.firewall k (f.firewall k h);
}

pub Extends-covers_mounts :
    (a b : Approvals) (ms : List Mount)
    → Extends a b
    → All (λ m. covers_mount a m ≡ true) ms
    → All (λ m. covers_mount b m ≡ true) ms
Extends-covers_mounts a b [] f h = tt
Extends-covers_mounts a b (m ∷ ms) f h =
    (ground (arith, f.mounts (Mounts.approval_key m)), Extends-covers_mounts a b ms f h.1)

Extends-covers_entries :
    (a b : Approvals) (es : List FirewallEntry)
    → Extends a b
    → All (λ e. covers_entry a e ≡ true) es
    → All (λ e. covers_entry b e ≡ true) es
Extends-covers_entries a b [] f h = tt
Extends-covers_entries a b (e ∷ es) f h =
    (f.firewall (firewall_key e) h.0, Extends-covers_entries a b es f h.1)

pub contains-snoc_self : (xs : List String) (k : String) → contains (xs ++ k ∷ []) k ≡ true
contains-snoc_self xs k = rw contains-append (ground (arith, eq_iff k k))

pub contains-snoc :
    (xs : List String) (k j : String) → contains xs j ≡ true → contains (xs ++ k ∷ []) j ≡ true
contains-snoc xs k j h = rw (contains-append xs (k ∷ []) j, h)

-- What one step or a loop leaves: it only adds, it marks what it adds, and without a prompt it adds
-- nothing.
pub record IsStep (prompt : Bool) (s t : Session) : Type 0 where
  pub extends : Extends s.approvals t.approvals
  pub marked : t.changed ≡ false → t ≡ s
  pub silent : prompt ≡ false → t ≡ s

IsStep-refl : (prompt : Bool) (s : Session) → IsStep prompt s s
IsStep-refl prompt s = record {
  extends = Extends-refl s.approvals;
  marked = λ _. refl;
  silent = λ _. refl;
}

module _ (host : Host) (prompt : Bool) where
  approve_mount-IsStep :
      (m : Mount) (s t : Session) → approve_mount host prompt m s ≡ ok t → IsStep prompt s t
  unfolding approve_mount consent
  approve_mount-IsStep m s t h = record {
    extends = record {
      mounts = λ k q. ground (arith, contains-snoc s.approvals.mounts (Mounts.approval_key m) k);
      firewall = λ k q. ground arith;
    };
    marked = λ q. ground arith;
    silent = λ q. ground arith;
  }

  approve_mount-covers :
      (m : Mount) (s t : Session)
      → approve_mount host prompt m s ≡ ok t
      → covers_mount t.approvals m ≡ true
  unfolding approve_mount consent
  approve_mount-covers m s t h =
      ground (arith, contains-snoc_self s.approvals.mounts (Mounts.approval_key m))

  approve_entry-IsStep :
      (e : FirewallEntry) (s t : Session) → approve_entry host prompt e s ≡ ok t → IsStep prompt s t
  unfolding approve_entry consent
  approve_entry-IsStep e s t h = record {
    extends = record {
      mounts = λ k q. ground arith;
      firewall = λ k q. ground (arith, contains-snoc s.approvals.firewall (firewall_key e) k);
    };
    marked = λ q. ground arith;
    silent = λ q. ground arith;
  }

  approve_entry-covers :
      (e : FirewallEntry) (s t : Session)
      → approve_entry host prompt e s ≡ ok t
      → covers_entry t.approvals e ≡ true
  unfolding approve_entry consent
  approve_entry-covers e s t h =
      ground (arith, contains-snoc_self s.approvals.firewall (firewall_key e))

module _ {prompt : Bool} {s t u : Session} where
  pub IsStep-trans : IsStep prompt s t → IsStep prompt t u → IsStep prompt s u
  IsStep-trans f g = record {
    extends = Extends-trans f.extends g.extends;
    marked = λ q.
        let same = g.marked q in same ∙ f.marked (sym (ap (λ (v : Session). v.changed) same) ∙ q);
    silent = λ q. g.silent q ∙ f.silent q;
  }

module _ (host : Host) (prompt : Bool) where
  pub approve_mounts_lem :
      (ms : List Mount) (s t : Session)
      → approve_mounts host prompt ms s ≡ ok t
      → IsStep prompt s t × All (λ m. covers_mount t.approvals m ≡ true) ms
  unfolding approve_mounts
  approve_mounts_lem [] s t h =
      (subst (IsStep prompt s) (ok_injective h) (IsStep-refl prompt s), tt)
  approve_mounts_lem (m ∷ ms) s t h =
      let (r, first, rest) = >>=-eq-ok (approve_mount host prompt m s) _ h in
      let (step, covered) = approve_mounts_lem ms r t rest in
      (
        IsStep-trans (approve_mount-IsStep host prompt m s r first) step,
        (
          ground (
            arith,
            approve_mount-covers host prompt m s r first,
            step.extends.mounts (Mounts.approval_key m),
          ),
          covered,
        ),
      )

  pub approve_entries_lem :
      (es : List FirewallEntry) (s t : Session)
      → approve_entries host prompt es s ≡ ok t
      → IsStep prompt s t × All (λ e. covers_entry t.approvals e ≡ true) es
  unfolding approve_entries
  approve_entries_lem [] s t h =
      (subst (IsStep prompt s) (ok_injective h) (IsStep-refl prompt s), tt)
  approve_entries_lem (e ∷ es) s t h =
      let (r, first, rest) = >>=-eq-ok (approve_entry host prompt e s) _ h in
      let (step, covered) = approve_entries_lem es r t rest in
      (
        IsStep-trans (approve_entry-IsStep host prompt e s r first) step,
        (
          step.extends.firewall (firewall_key e) (approve_entry-covers host prompt e s r first),
          covered,
        ),
      )

  -- Where all is covered, the loops ask nothing and change nothing.
  pub approve_mounts_covered :
      (ms : List Mount) (s : Session)
      → All (λ m. covers_mount s.approvals m ≡ true) ms
      → approve_mounts host prompt ms s ≡ ok s
  unfolding approve_mounts approve_mount
  approve_mounts_covered [] s h = refl
  approve_mounts_covered (m ∷ ms) s h = rw h.0 (approve_mounts_covered ms s h.1)

  pub approve_entries_covered :
      (es : List FirewallEntry) (s : Session)
      → All (λ e. covers_entry s.approvals e ≡ true) es
      → approve_entries host prompt es s ≡ ok s
  unfolding approve_entries approve_entry
  approve_entries_covered [] s h = refl
  approve_entries_covered (e ∷ es) s h = rw h.0 (approve_entries_covered es s h.1)
